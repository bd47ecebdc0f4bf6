-- ===== src/Tests/Clocks.antt =====
-- Fixed-point numbers in place of `double`, a time, and two messages that make a burst.
use rq_route_demo.Base.{
  ℕ, ◌≡◌, refl, not, [], ◌∷◌, replicate, length-replicate, ok, arith, ℤ, pos, ◌+ℤ◌, ◌-ℤ◌, ◌*ℤ◌,
  leb_ℤ, eqb_ℤ, quot_ℤ,
}
use rq_route_demo.Clock.{Doubles, Timespec, add_delta_to}
use rq_route_demo.Clock.Carry.{Carried, add_delta_to-Carried}
use rq_route_demo.Udp.{UdpParams, Send, udp_create}
use rq_route_demo.Udp.Bursts.{IsMessage, Throttled, send_all, send_all-Throttled}

-- Thousandths.
abbrev pub thousandths : Doubles ℤ
thousandths = record {
  of_int = λ a. a *ℤ pos 1000;
  add = λ a b. a +ℤ b;
  sub = λ a b. a -ℤ b;
  mul = λ a b. quot_ℤ (a *ℤ b) (pos 1000);
  div = λ a b. quot_ℤ (a *ℤ pos 1000) b;
  less = λ a b. not (leb_ℤ b a);
  less_eq = leb_ℤ;
  equal = eqb_ℤ;
  floor = λ a. quot_ℤ a (pos 1000);
  ceil = λ a. quot_ℤ (a +ℤ pos 999) (pos 1000);
  truncate = λ a. quot_ℤ a (pos 1000);
}

abbrev pub noon : Timespec
noon = record { tv_sec = pos 43200; tv_nsec = pos 600000000 }

-- 1.7 seconds later
add_delta_to-Carried_example :
    (ts : Timespec) × (add_delta_to thousandths noon (pos 1700) ≡ ok ts)
    × Carried (pos 43201) 1300000000 ts
add_delta_to-Carried_example =
    add_delta_to-Carried thousandths noon (pos 1700) (pos 1) 1300000000 refl refl (omega arith)

abbrev pub params : UdpParams ℤ
params = record { throttle_speed = pos 15000; drop_prob = pos 0; recv_addr = [] }

abbrev large : Send
large = record { message = replicate 20000 1; random = 7; start = noon; now = noon }

large-IsMessage : IsMessage large
large-IsMessage = (
  omega (arith, length-replicate {A = ℕ} 20000 1),
  omega (arith, length-replicate {A = ℕ} 20000 1),
)

send_all-Throttled_example :
    Throttled thousandths 2147483647
      (pos 15000)
      (large ∷ large ∷ [])
      (send_all thousandths 2147483647 (udp_create params noon) (large ∷ large ∷ [])).1
      (send_all thousandths 2147483647 (udp_create params noon) (large ∷ large ∷ [])).2
send_all-Throttled_example =
    send_all-Throttled thousandths 2147483647 params noon (large ∷ large ∷ []) refl
      (large-IsMessage, (large-IsMessage, tt))
