-- ===== src/Handshake/Invariant.antt =====
-- src/gvs_handshake.c: what a keep-alive remembers, through any history of calls.
use doorfast.Prelude.{
  ℕ, suc, ◌≤◌, ◌≡◌, refl, ◌⊎◌, inl, inr, Bool, true, false, Option, none, some, List, [], ◌∷◌,
  arith, if◌then◌else◌, u64_max, Bytes, Address, ◌||◌,
}
use doorfast.Frame.{Frame, Event, parse}
use doorfast.Session.{Session}
use doorfast.Handshake.{
  Handshake, HandshakeResult, ask, empty_handshake, no_result, max_missed_replies, handshake_start,
  handshake_tick, handshake_receive, receive_frame,
}

-- A call, with the session that its caller passes and its clock.
pub data HandshakeCall : Type 0 where
  start : Session → Address → ℕ → HandshakeCall
  tick : Session → Address → ℕ → HandshakeCall
  receive : Bytes → Session → Address → ℕ → HandshakeCall

unfoldable pub handshake_step : Handshake → HandshakeCall → Handshake × HandshakeResult
handshake_step h (start s local now_ms) = ((handshake_start s local now_ms).1, no_result)
handshake_step h (tick s local now_ms) =
    let (status, k, t, r) = handshake_tick h s local now_ms in (k, r)
handshake_step h (receive datagram s local now_ms) =
    let (status, k, r) = handshake_receive h datagram s local now_ms in (k, r)

abbrev pub asks : HandshakeResult → Bool
asks r = elim r.action.kind [ ask ↦ true | _ ↦ false ]

-- The questions sent since the last start, question received or answer received.
abbrev pub count_unanswered : HandshakeCall → HandshakeResult → ℕ → ℕ
count_unanswered (start s local now_ms) r n = 0
count_unanswered _ r n =
    if r.accepted_ask || r.accepted_reply then 0 else if asks r then suc n else n

unfoldable pub handshake_run : Handshake → ℕ → List HandshakeCall → Handshake × ℕ
handshake_run h n [] = (h, n)
handshake_run h n (c ∷ cs) =
    let (k, r) = handshake_step h c in handshake_run k (count_unanswered c r n) cs

pub record IsKept (h : Handshake) (n : ℕ) : Type 0 where
  pub counted : (h.active ≡ false) ⊎ (h.missed_replies ≡ n)
  pub at_rest : (h.active ≡ true) ⊎ (h.missed_replies ≡ 0)
  pub bounded : h.missed_replies ≤ max_missed_replies
  pub probe : h.next_probe_ms ≤ u64_max

start-IsKept :
    (s : Session) (local : Address) (now_ms : ℕ) → IsKept (handshake_start s local now_ms).1 0
unfolding handshake_start
start-IsKept s local now_ms = ground arith

tick-IsKept :
    (h : Handshake) (n : ℕ) (s : Session) (local : Address) (now_ms : ℕ)
    → IsKept h n
    → let (k, r) = handshake_step h (tick s local now_ms) in
      IsKept k (count_unanswered (tick s local now_ms) r n)
unfolding handshake_step handshake_tick
tick-IsKept h n s local now_ms v = ground arith

receive_frame-IsKept :
    (h : Handshake) (n now_ms : ℕ) (o : Option (Frame × Event))
    → IsKept h n
    → let (status, k, r) = receive_frame h now_ms o in
      IsKept k (if r.accepted_ask || r.accepted_reply then 0 else if asks r then suc n else n)
unfolding receive_frame
receive_frame-IsKept h n now_ms none v = ground arith
receive_frame-IsKept h n now_ms (some (f, e)) v = ground arith

receive-IsKept :
    (h : Handshake) (n : ℕ) (datagram : Bytes) (s : Session) (local : Address) (now_ms : ℕ)
    → IsKept h n
    → let (status, k, r) = handshake_receive h datagram s local now_ms in
      IsKept k (if r.accepted_ask || r.accepted_reply then 0 else if asks r then suc n else n)
unfolding handshake_receive
receive-IsKept h n datagram s local now_ms v =
    ground (arith, receive_frame-IsKept h n now_ms (parse datagram) v)

handshake_step-IsKept :
    (h : Handshake) (n : ℕ) (c : HandshakeCall)
    → IsKept h n
    → IsKept (handshake_step h c).0 (count_unanswered c (handshake_step h c).1 n)
unfolding handshake_step
handshake_step-IsKept h n (start s local now_ms) v = start-IsKept s local now_ms
handshake_step-IsKept h n (tick s local now_ms) v = tick-IsKept h n s local now_ms v
handshake_step-IsKept h n (receive datagram s local now_ms) v =
    receive-IsKept h n datagram s local now_ms v

handshake_run-IsKept :
    (h : Handshake) (n : ℕ) (cs : List HandshakeCall)
    → IsKept h n
    → let (k, m) = handshake_run h n cs in IsKept k m
unfolding handshake_run
handshake_run-IsKept h n [] v = v
handshake_run-IsKept h n (c ∷ cs) v =
    handshake_run-IsKept (handshake_step h c).0 _ cs (handshake_step-IsKept h n c v)

-- After any history an active keep-alive counts exactly the questions that it has sent since its
-- start or since the last frame it took from the station, and these are five at most.
pub handshake_run-unanswered :
    (cs : List HandshakeCall)
    → let (h, n) = handshake_run empty_handshake 0 cs in
      ((h.active ≡ false) ⊎ (h.missed_replies ≡ n)) × (h.missed_replies ≤ 5)
handshake_run-unanswered cs =
    let v = handshake_run-IsKept empty_handshake 0 cs (record {
      counted = inl refl;
      at_rest = inr refl;
      bounded = omega arith;
      probe = omega arith;
    }) in
    (v.counted, v.bounded)
