-- ===== src/Udp/Bursts.antt =====
-- The throttle over many messages: bursts, and the pauses behind them.
use rq_route_demo.Base.{
  ℕ, ◌+◌, ◌%◌, ◌^◌, ◌≤◌, ◌<◌, ◌≡◌, refl, ap, subst, sym, ◌∙◌, arith, true, false, List, [], ◌∷◌,
  ◌++◌, append_assoc, append-nil, length, Option, none, some, leb, ◌==◌, if◌then◌else◌, Bool-cases,
  inl, inr, Every, Every-append,
}
use rq_route_demo.Clock.{Doubles, Timespec}
use rq_route_demo.Udp.{
  UdpParams, UdpSender, Send, of_ℕ, pause, keeps, throttle, udp_create, udp_sendmsg,
}

abbrev pub kept : {A : Type 0} → Option A → List A → List A
kept none xs = xs
kept (some x) xs = x ∷ xs

-- The bytes of some messages.
abbrev pub total : List Send → ℕ
total [] = 0
total (m ∷ ms) = length m.message + total ms

-- The time at which the first of some messages was sent.
abbrev pub start_of : List Send → Timespec → Timespec
start_of [] unset = unset
start_of (m ∷ ms) unset = m.start

-- A burst: the messages before its last one, and that.
abbrev pub Burst : Type 0
Burst = List Send × Send

-- The last message makes it 32768 bytes or more.
abbrev pub IsBurst : Burst → Type 0
IsBurst b = (total b.0 < 32768) × (32768 ≤ total b.0 + length b.1.message)

-- The messages of the bursts, in order.
abbrev pub joined : List Burst → List Send
joined [] = []
joined ((before, last) ∷ bs) = before ++ (last ∷ joined bs)

-- A message of some bytes, such as a packet with its header.
abbrev pub IsMessage : Send → Type 0
IsMessage m = (0 < length m.message) × (length m.message < 2 ^ 32)

module _ {D : Type 0} (double : Doubles D) (rand_max : ℕ) where
  -- The calls of `udp_sendmsg` for some messages: the packets sent, the pauses, and the sender afterwards.
  pub send_all : UdpSender D → List Send → List (List ℕ) × List D × UdpSender D
  send_all u [] = ([], [], u)
  send_all u (m ∷ ms) =
      let (packet, waits, u₁) = udp_sendmsg double rand_max u m in
      let (packets, pauses, u') = send_all u₁ ms in (kept packet packets, kept waits pauses, u')

  -- The pauses behind the bursts: each for its bytes, from its first message on.
  pub pauses_of : D → List Burst → List D
  pauses_of speed [] = []
  pauses_of speed ((before, last) ∷ bs) =
      kept
        (pause double speed (total before + length last.message) (start_of before last.start)
          last.now)
        (pauses_of speed bs)

  -- The messages `ms`, split into bursts and a rest that is none, and what the throttle did.
  pub record Throttled (speed : D) (ms : List Send) (pauses : List D) (u' : UdpSender D)
      : Type 0 where
    pub bursts : List Burst
    pub rest : List Send
    pub splits : ms ≡ joined bursts ++ rest
    pub full : Every IsBurst bursts
    pub short : total rest < 32768
    pub waits : pauses ≡ pauses_of speed bursts
    pub counts : u'.throttle_nbytes ≡ total rest

  total-append : (xs ys : List Send) → total (xs ++ ys) ≡ total xs + total ys
  total-append [] ys = omega arith
  total-append (x ∷ xs) ys = omega (arith, total-append xs ys)

  -- A sender in the burst that `begun` is the beginning of.
  record InBurst (u : UdpSender D) (begun : List Send) : Type 0 where
    short : total begun < 32768
    counted : u.throttle_nbytes ≡ total begun
    started : u.throttle_start ≡ start_of begun u.throttle_start
    positive : Every IsMessage begun
    limited : double.less (of_ℕ double 0) u.params.throttle_speed ≡ true

  first_start :
      (u : UdpSender D) (begun : List Send) (m : Send)
      → InBurst u begun
      → (if u.throttle_nbytes == 0 then m.start else u.throttle_start) ≡ start_of begun m.start
  first_start u [] m v =
      let new : (u.throttle_nbytes == 0) ≡ true = ground (arith, v.counted) in rw new refl
  first_start u (x ∷ begun) m v =
      let later : (u.throttle_nbytes == 0) ≡ false = ground (arith, v.counted, v.positive.0.0) in
      rw later v.started

  -- The message that completes the burst.
  throttle_last :
      (u : UdpSender D) (begun : List Send) (m : Send)
      → InBurst u begun
      → IsMessage m
      → 32768 ≤ total begun + length m.message
      → throttle double u m ≡ (
        record u { throttle_nbytes = 0; throttle_start = start_of begun m.start },
        pause double u.params.throttle_speed
            (total begun + length m.message)
            (start_of begun m.start)
            m.now,
      )
  unfolding throttle
  throttle_last u begun m v (some_bytes, small) full =
      let start = first_start u begun m v in
      let size : (u.throttle_nbytes + length m.message) % 2 ^ 64 ≡ total begun + length m.message =
        omega (arith, v.counted, v.short) in
      let reached : leb 32768 (total begun + length m.message) ≡ true = ground arith in
      rw (start, size, reached) refl

  -- A message within the burst.
  throttle_within :
      (u : UdpSender D) (begun : List Send) (m : Send)
      → InBurst u begun
      → IsMessage m
      → total begun + length m.message < 32768
      → throttle double u m ≡ (
        record u {
          throttle_nbytes = total begun + length m.message;
          throttle_start = start_of begun m.start;
        },
        none,
      )
  unfolding throttle
  throttle_within u begun m v (some_bytes, small) few =
      let start = first_start u begun m v in
      let size : (u.throttle_nbytes + length m.message) % 2 ^ 64 ≡ total begun + length m.message =
        omega (arith, v.counted, v.short) in
      let below : leb 32768 (total begun + length m.message) ≡ false = ground arith in
      rw (start, size, below) refl

  start_of-append :
      (begun : List Send) (m : Send) (t : Timespec)
      → start_of begun m.start ≡ start_of (begun ++ m ∷ []) t
  start_of-append [] m t = refl
  start_of-append (x ∷ begun) m t = refl

  -- One message of many.
  send_all_cons :
      (u : UdpSender D) (m : Send) (ms : List Send) {waits : Option D} {u₁ : UdpSender D}
      → double.less (of_ℕ double 0) u.params.throttle_speed ≡ true
      → throttle double u m ≡ (u₁, waits)
      → (packets : List (List ℕ)) × (send_all u (m ∷ ms)
          ≡ (packets, kept waits (send_all u₁ ms).1, (send_all u₁ ms).2))
  unfolding send_all udp_sendmsg
  send_all_cons u m ms {waits} {u₁} limited e = (
    kept (if keeps double rand_max u.params m.random then some m.message else none)
        (send_all u₁ ms).0,
    rw (limited, e) refl,
  )

  -- One more burst before the others.
  Throttled-burst :
      (speed : D) (begun : List Send) (m : Send) (ms : List Send) (pauses : List D)
      (u' : UdpSender D)
      → IsBurst (begun, m)
      → Throttled speed ms pauses u'
      → Throttled speed
          (begun ++ m ∷ ms)
          (kept
            (pause double speed (total begun + length m.message) (start_of begun m.start) m.now)
            pauses)
          u'
  unfolding pauses_of
  Throttled-burst speed begun m ms pauses u' full w = record {
    bursts = (begun, m) ∷ w.bursts;
    rest = w.rest;
    splits =
        ap (λ t. begun ++ m ∷ t) w.splits ∙ sym (append_assoc begun (m ∷ joined w.bursts) w.rest);
    full = (full, w.full);
    short = w.short;
    waits =
        ap
          (kept
            (pause double speed (total begun + length m.message) (start_of begun m.start) m.now))
          w.waits;
    counts = w.counts;
  }

  -- The sender after one more message of the burst, and after its last one.
  InBurst-within :
      (u : UdpSender D) (begun : List Send) (m : Send)
      → InBurst u begun
      → IsMessage m
      → total begun + length m.message < 32768
      → InBurst
          (record u {
            throttle_nbytes = total begun + length m.message;
            throttle_start = start_of begun m.start;
          })
          (begun ++ m ∷ [])
  InBurst-within u begun m v one few =
      let size : total begun + length m.message ≡ total (begun ++ m ∷ []) =
        omega (arith, total-append begun (m ∷ [])) in
      record {
        short = omega (arith, size);
        counted = size;
        started = start_of-append begun m (start_of begun m.start);
        positive = Every-append IsMessage begun (m ∷ []) v.positive (one, tt);
        limited = v.limited;
      }

  InBurst-new :
      (u : UdpSender D) (t : Timespec)
      → double.less (of_ℕ double 0) u.params.throttle_speed ≡ true
      → InBurst (record u { throttle_nbytes = 0; throttle_start = t }) []
  InBurst-new u t limited = record {
    short = omega arith;
    counted = refl;
    started = refl;
    positive = tt;
    limited = limited;
  }

  send_all_lem :
      (ms : List Send) (u : UdpSender D) (begun : List Send)
      → InBurst u begun
      → Every IsMessage ms
      → Throttled u.params.throttle_speed (begun ++ ms) (send_all u ms).1 (send_all u ms).2
  unfolding send_all pauses_of
  send_all_lem [] u begun v h = record {
    bursts = [];
    rest = begun;
    splits = append-nil begun;
    full = tt;
    short = v.short;
    waits = refl;
    counts = v.counted;
  }
  send_all_lem (m ∷ ms) u begun v (one, others) =
      elim (Bool-cases (leb 32768 (total begun + length m.message))) [
        | inl complete ↦
            let full : 32768 ≤ total begun + length m.message = ground arith in
            let u₁ = record u { throttle_nbytes = 0; throttle_start = start_of begun m.start } in
            let w =
              send_all_lem ms u₁ [] (InBurst-new u (start_of begun m.start) v.limited) others in
            let (packets, step) =
              send_all_cons u m ms v.limited (throttle_last u begun m v one full) in
            subst (λ r. Throttled u.params.throttle_speed (begun ++ m ∷ ms) r.1 r.2) (sym step)
              (Throttled-burst u.params.throttle_speed begun m ms (send_all u₁ ms).1
                (send_all u₁ ms).2 (v.short, full) w)
        | inr within ↦
            let few : total begun + length m.message < 32768 = ground arith in
            let u₁ = record u {
              throttle_nbytes = total begun + length m.message;
              throttle_start = start_of begun m.start;
            } in
            let w =
              send_all_lem ms u₁ (begun ++ m ∷ []) (InBurst-within u begun m v one few) others in
            let (packets, step) =
              send_all_cons u m ms v.limited (throttle_within u begun m v one few) in
            subst (λ r. Throttled u.params.throttle_speed (begun ++ m ∷ ms) r.1 r.2) (sym step)
              (subst
                (λ t. Throttled u.params.throttle_speed t (send_all u₁ ms).1 (send_all u₁ ms).2)
                (append_assoc begun (m ∷ []) ms) w)
      ]

  -- At a positive speed, a new sender divides the messages that it is given, each of some bytes, into
  -- bursts of the least number of messages with 32768 bytes or more, and a rest of fewer bytes, which is
  -- what it has counted; and its pauses are those behind the bursts, each for all bytes of its burst from
  -- the time of its first message on.
  pub send_all-Throttled :
      (params : UdpParams D) (unset : Timespec) (ms : List Send)
      → double.less (of_ℕ double 0) params.throttle_speed ≡ true
      → Every IsMessage ms
      → Throttled params.throttle_speed ms
          (send_all (udp_create params unset) ms).1
          (send_all (udp_create params unset) ms).2
  unfolding udp_create
  send_all-Throttled params unset ms limited h =
      send_all_lem ms (udp_create params unset) []
        (record {
          short = omega arith;
          counted = refl;
          started = refl;
          positive = tt;
          limited = limited;
        })
        h
