-- ===== src/Identity/Tests.antt =====
-- The unit IS:1-2-503-1, and a neighbour.
use doorfast.Prelude.{◌<◌, ◌≡◌, refl, Address}
use doorfast.Identity.{
  Numbers, Fields, Ipv4, bcd, bcd_value, identity_parse, identity_fields, unicast_of, unicast_ip,
}
use doorfast.Identity.Addresses.{unicast_ip-injective}

abbrev numbers : Numbers
numbers = record { building = 1; unit = 2; room = 503; machine = 1 }

abbrev identity : Address
identity = record { b0 = 0x61; b1 = 1; b2 = 2; b3 = 5; b4 = 3; b5 = 1 }

-- Building 1, unit 12 in the bytes: no text has it, but it has the fields of building 2, unit 2.
abbrev odd_identity : Address
odd_identity = record identity { b2 = 0x12 }

abbrev second_building : Address
second_building = record identity { b1 = 2; b2 = 2 }

shared_unicast : unicast_ip odd_identity ≡ unicast_ip second_building
unfolding unicast_ip identity_fields bcd_value
shared_unicast = refl

abbrev address : Ipv4
address = record { o0 = 10; o1 = 3; o2 = 5; o3 = 2 }

unicast_ip-injective_example :
    (numbers ≡ numbers) × (address.o0 ≡ 10) × (3 < 256) × (5 < 256) × (2 < 256)
unfolding identity_parse bcd unicast_ip identity_fields bcd_value unicast_of
unicast_ip-injective_example =
    unicast_ip-injective numbers numbers {i = identity} {j = identity} {a = address} refl refl refl
      refl

abbrev fields : Fields
fields = record { building_unit = 22; floor = 5; room = 3; machine = 1 }
