-- ===== src/Udp.antt =====
-- sender/udp.h and sender/udp.c: the socket of the sender, which drops packets at random and holds the
-- speed down. What `random` and `clock_gettime` give is an input, and the packet given to `sendto` and the
-- time given to `sleep_frac` are the result.
pub mod Bursts
use rq_route_demo.Base.{
  ℕ, ◌+◌, ◌%◌, ◌^◌, Bool, true, false, ◌||◌, not, List, [], length, Option, none, some, ℤ, pos, leb,
  ◌==◌, if◌then◌else◌,
}
use rq_route_demo.Clock.{Doubles, Timespec, get_delta_seconds}

-- `udp_params`
pub record UdpParams (D : Type 0) : Type 0 where
  pub throttle_speed : D
  pub drop_prob : D
  pub recv_addr : List ℕ

-- `struct udp_T`, without the socket and its address
pub record UdpSender (D : Type 0) : Type 0 where
  pub params : UdpParams D
  pub throttle_nbytes : ℕ
  pub throttle_start : Timespec

-- A message, and what the calls of `random` and of `clock_gettime` give, where they are made.
pub record Send : Type 0 where
  pub message : List ℕ
  pub random : ℕ
  pub start : Timespec
  pub now : Timespec

module _ {D : Type 0} where
  -- `udp_create` once there is a socket
  pub udp_create : UdpParams D → Timespec → UdpSender D
  udp_create params unset = record { params = params; throttle_nbytes = 0; throttle_start = unset }

  -- `udp_create`, for whether there is a socket
  abbrev pub udp_open : Bool → UdpParams D → Timespec → Option (UdpSender D)
  udp_open false params unset = none
  udp_open true params unset = some (udp_create params unset)

  -- `udp_get_params`
  abbrev pub udp_get_params : UdpSender D → UdpParams D
  udp_get_params u = u.params

  -- `udp_set_params`
  abbrev pub udp_set_params : UdpSender D → UdpParams D → UdpSender D
  udp_set_params u params = record u { params = params }

module _ {D : Type 0} (double : Doubles D) where
  abbrev pub of_ℕ : ℕ → D
  of_ℕ n = double.of_int (pos n)

  -- The time that a burst of `nbytes` bytes needs at the speed, less what has passed, if it is positive.
  pub pause : D → ℕ → Timespec → Timespec → Option D
  pause throttle_speed nbytes start now =
      let delta = get_delta_seconds double now start in
      let mbits_sent = double.div (double.mul (of_ℕ nbytes) (of_ℕ 8)) (of_ℕ 1000000) in
      let time_needed = double.div mbits_sent throttle_speed in
      if double.less delta time_needed then some (double.sub time_needed delta) else none

  -- The throttle: the sender afterwards, and the pause.
  pub throttle : UdpSender D → Send → UdpSender D × Option D
  unfolding pause
  throttle u m =
      let start = if u.throttle_nbytes == 0 then m.start else u.throttle_start in
      let nbytes = (u.throttle_nbytes + length m.message) % 2 ^ 64 in
      if leb 32768 nbytes
      then (
        record u { throttle_nbytes = 0; throttle_start = start },
        pause u.params.throttle_speed nbytes start m.now,
      )
      else (record u { throttle_nbytes = nbytes; throttle_start = start }, none)

  -- Whether the message is sent; `rand_max` is `RAND_MAX`.
  pub keeps : ℕ → UdpParams D → ℕ → Bool
  keeps rand_max params random =
      double.equal params.drop_prob (of_ℕ 0)
      || double.less_eq params.drop_prob
          (double.div (of_ℕ random) (double.add (of_ℕ rand_max) (of_ℕ 1)))

  -- `udp_sendmsg`: the packet sent, the pause, and the sender afterwards.
  pub udp_sendmsg : ℕ → UdpSender D → Send → Option (List ℕ) × Option D × UdpSender D
  unfolding keeps throttle
  udp_sendmsg rand_max u m =
      let packet = if keeps rand_max u.params m.random then some m.message else none in
      if double.less (of_ℕ 0) u.params.throttle_speed
      then (let (u', waits) = throttle u m in (packet, waits, u'))
      else (packet, none, u)
