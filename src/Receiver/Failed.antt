-- ===== src/Receiver/Failed.antt =====
-- `task_write` when `write` fails.
use rq_route_demo.Base.{
  ℕ, ◌+◌, ◌-◌, ◌≡◌, refl, ap, ◌∙◌, arith, false, List, [], ◌∷◌, ◌++◌, none, some, ◌==◌,
  if◌then◌else◌, negsuc,
}
use rq_route_demo.Memory.{Malloc}
use rq_route_demo.CodeBlock.Codec.{Codec}
use rq_route_demo.SegmentSet.{slot, put, inc_min_file_nbr}
use rq_route_demo.SegmentSet.Window.{IsValid, view, view-inc_min_file_nbr, min-inc_min_file_nbr}
use rq_route_demo.SegmentSet.Updates.{Updated, put-Updated}
use rq_route_demo.Segment
use rq_route_demo.Segment.{SegState}
use rq_route_demo.Segment.Output.{IsWriting, write_more-error}
use rq_route_demo.Receiver.{
  Receiver, Input, open_file, assign, after_write_more, write_task, start_write,
}
use rq_route_demo.Receiver.Steps.{deref-view, get-view}

-- The loop's variables once the file of `r` is given up: nothing more of it is written, it is shown no
-- more, and the window has moved on.
pub record IsGivenUp {C : Type 0} (r next : Receiver C) : Type 0 where
  pub nothing : next.output ≡ r.output ++ (open_file r.out_fd, [], false) ∷ []
  pub closed : next.out_fd ≡ none
  pub moved : next.ss.min_file_nbr ≡ r.ss.min_file_nbr + 1
  pub shown : (n : ℕ) → view next.ss n ≡ (if n == r.ss.min_file_nbr then none else view r.ss n)

module _ {C : Type 0} (rq : Codec C) (heap : Malloc) (n_segments : ℕ) where
  -- In a well-formed window whose first file is being written, with bytes of it left: if `write` fails on
  -- them, whatever the error, `task_write` takes the file for finished. It writes no more of it, drops it
  -- from the window with the bytes that are left, and goes on with the file behind it; the other files
  -- are shown as before.
  pub write_task-error :
      (r : Receiver C) (input : Input) {f offs : ℕ} {buf : List ℕ} {s : SegState} (e : ℕ)
      → IsValid r.ss
      → view r.ss r.ss.min_file_nbr ≡ some s
      → IsWriting f offs buf s
      → input.sink (f - offs) ≡ negsuc e
      → (next : Receiver C) × (write_task rq heap n_segments r input
          ≡ start_write rq heap n_segments next input.opens)
        × IsGivenUp r next
  unfolding write_task after_write_more assign
  write_task-error r input {s = s} e v shows w fails =
      let min = r.ss.min_file_nbr in
      let gone = Segment.free s in
      let freed = put r.ss (slot r.ss min) gone in
      let u : Updated r.ss freed (λ m. if m == min then some gone else view r.ss m) =
        put-Updated v min gone s shows in
      let next : Receiver C = record r {
        ss = inc_min_file_nbr freed;
        out_fd = none;
        output = r.output ++ (open_file r.out_fd, [], false) ∷ [];
      } in
      (
        next,
        rw
            (
              get-view v min shows,
              deref-view r.ss min shows,
              write_more-error rq w input.sink r.mem e fails,
            )
            refl,
        record {
          nothing = refl;
          closed = refl;
          moved = min-inc_min_file_nbr freed ∙ ap (λ n. n + 1) u.same_min;
          shown = λ n. view-inc_min_file_nbr u.valid n ∙ ground (arith, u.seen n, u.same_min);
        },
      )
