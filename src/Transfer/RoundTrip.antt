-- ===== src/Transfer/RoundTrip.antt =====
-- From `xmit_file` to the file that the receiver writes.
use rq_route_demo.Base.{
  take-append, ℕ, zero, suc, ◌+◌, ◌-◌, ◌*◌, ◌^◌, ◌≤◌, ◌<◌, ◌≡◌, refl, ap, ap₂, subst, sym, ◌∙◌,
  arith, true, List, [], length, length-take, take, drop, replicate, inl, inr, Every, Has,
  Every-append, Every-Has, Every-imp, some, ok, ℤ, pos_part,
}
use rq_route_demo.Memory.{Malloc}
use rq_route_demo.Packet.{Packet}
use rq_route_demo.Params.Exact.{symbols, max_file}
use rq_route_demo.CodeBlock.Codec.{Codec, CodecSizes}
use rq_route_demo.CodeBlock.Received.{ids, received, used, ids-entries, count_source}
use rq_route_demo.CodeBlock.Data.Recover.{IsPartOf}
use rq_route_demo.CodeBlock.Sources.{all_counted}
use rq_route_demo.Segment
use rq_route_demo.Segment.{SegState, prepare_output}
use rq_route_demo.Segment.State.{init-IsNew}
use rq_route_demo.Segment.Drain.{Accepts, drain}
use rq_route_demo.Segment.Whole.{IsComplete, drain-prepare_output}
use rq_route_demo.Sender.{low_16, xmit_file}
use rq_route_demo.Sender.Packets.{source_packet, source_packets, repair_packets, packets}
use rq_route_demo.Sender.Blocks.{Works}
use rq_route_demo.Sender.Transmit.{xmit_file-sends}
use rq_route_demo.Transfer.{deliver, repair_count}
use rq_route_demo.Transfer.Symbols.{Gathers}
use rq_route_demo.Sender.Padding.{padded, length-padded}
use rq_route_demo.Transfer.Receives.{Receives, Receives-new}
use rq_route_demo.Transfer.Deliver.{IsOfFile, Delivered, deliver_lem}

-- The receiver, given the packets `ps` of one file, writes `file`: its state is set up, takes every packet,
-- its output is prepared, and as many calls of `segstate_write_more` as the file has bytes write it.
pub record Recovers {C : Type 0} (rq : Codec C) (heap : Malloc) (file_nbr : ℕ) (file : List ℕ)
    (fd : ℕ) (sinks : ℕ → ℕ → ℤ) (c : C) (ps : List Packet) : Type 0 where
  pub new : SegState
  pub sets_up : Segment.init heap (low_16 file_nbr) (length file) ≡ ok new
  pub got : SegState
  pub takes : deliver new ps ≡ ok got
  pub loaded : SegState
  pub mem : C
  pub prepares : prepare_output rq heap got fd c ≡ ok (loaded, mem)
  pub writes : drain rq (length file) loaded sinks mem ≡ ok file

module _ {C : Type 0} (rq : Codec C) (heap : Malloc) (file_nbr : ℕ) (file : List ℕ) (fd : ℕ)
    (sinks : ℕ → ℕ → ℤ) (c : C) (accepts : Accepts sinks) (some_bytes : 0 < length file)
    (small : length file ≤ max_file) where
  nothing : Gathers (symbols (length file)) (padded file) 0 []
  nothing = record { parts = tt; no_repeat = refl; few = omega arith }

  IsComplete-Delivered :
      {s s' : SegState} {v : Receives file_nbr file s} {ps : List Packet} {r : ℕ}
      (d : Delivered file_nbr file v ps r s')
      → ((j : ℕ) → j < symbols (length file) → Has (source_packet file_nbr file j) ps)
      → IsComplete d.receives.valid (padded file)
  IsComplete-Delivered {s' = s'} d all =
      let v = d.receives.valid in
      let b = v.block in
      let k : symbols (length file) ≡ b.k = sym (v.block_k ∙ ap symbols d.receives.sized) in
      let size : symbols (length file) ≡ symbols s'.file_len = ap symbols (sym d.receives.sized) in
      let held =
        all_counted (symbols (length file)) (ids (received b)) (λ j h. d.sources j (all j h)) in
      let same_count : count_source (symbols (length file)) (ids (received b)) ≡ b.n_src_esi =
        ap₂ count_source k (ids-entries b.t b.syms_buf 0 (used b)) ∙ sym v.block_valid.sources in
      record {
        padded = length-padded file ∙ ap (λ n. n * 1024) size;
        all_counted = omega (arith, held, same_count, size);
        parts = subst (λ n. IsPartOf (padded file) n 1024 (received b)) size d.gathers.parts;
      }

  pub deliver-Recovers :
      (ps : List Packet)
      → Every (IsOfFile file_nbr file) ps
      → ((j : ℕ) → j < symbols (length file) → Has (source_packet file_nbr file j) ps)
      → repair_count ps ≤ 30
      → Recovers rq heap file_nbr file fd sinks c ps
  deliver-Recovers ps of_file all few =
      let (s, made, w) = init-IsNew heap (low_16 file_nbr) (length file) some_bytes small in
      let (v, empty) = Receives-new file_nbr file w in
      let start : Gathers (symbols (length file)) (padded file) 0 (received v.valid.block) =
        subst (Gathers (symbols (length file)) (padded file) 0) (sym empty) nothing in
      let (s', taken, d) = deliver_lem file_nbr file ps v 0 small start (omega arith) of_file in
      let (s₁, prepared, written) =
        drain-prepare_output rq heap d.receives.valid (padded file) fd sinks c
          (IsComplete-Delivered d all) d.receives.closed accepts in
      record {
        new = s;
        sets_up = made;
        got = s';
        takes = taken;
        loaded = s₁;
        mem = c;
        prepares = prepared;
        writes =
            subst (λ n. drain rq n s₁ sinks c ≡ ok (take n (padded file))) d.receives.sized written
            ∙ ap ok (take-append file (replicate (symbols (length file) * 1024 - length file) 0));
      }

-- The packets that `xmit_file` sends are of the file, from packet `j` on.
pub source_packets-IsOfFile :
    (file_nbr : ℕ) (file : List ℕ) (n j : ℕ)
    → j + n ≤ symbols (length file)
    → Every (IsOfFile file_nbr file) (source_packets file_nbr file n j)
source_packets-IsOfFile file_nbr file zero j h = tt
source_packets-IsOfFile file_nbr file (suc n) j h =
    (inl (j, omega arith, refl), source_packets-IsOfFile file_nbr file n (j + 1) (omega arith))

pub repair_packets-IsOfFile :
    (file_nbr : ℕ) (file repairs : List ℕ) (n j : ℕ)
    → (j + n) * 1024 < 2 ^ 31
    → Every (IsOfFile file_nbr file) (repair_packets file_nbr (length file) repairs n j)
repair_packets-IsOfFile file_nbr file repairs zero j h = tt
repair_packets-IsOfFile file_nbr file repairs (suc n) j h = (
  inr (record {
    repairs = refl;
    same_file = refl;
    same_size = refl;
    id_small = omega arith;
    one_symbol = omega (arith, length-take 1024 (drop (j * 1024) repairs));
  }),
  repair_packets-IsOfFile file_nbr file repairs n (j + 1) (omega arith),
)

module _ {C : Type 0} (rq : Codec C) (heap : Malloc) (sizes : CodecSizes) (w : Works rq sizes) where
  -- The round trip. For a file of 1 to 51200000 bytes that `xmit_file` sent without an error, while no call
  -- of the library failed and the repair symbols asked for fit in an `int` of bytes: a receiver that gets
  -- packets out of those sent, in any order, repeated or lost, but each source packet at least once and
  -- at most 30 repair packets, writes exactly the file, if each `write` takes at least one byte.
  pub xmit_file-Recovers :
      (extra : ℕ → ℤ) (file_nbr : ℕ) (file : List ℕ) (c : C) {sent : List Packet} {c' : C}
      (ps : List Packet) (fd : ℕ) (sinks : ℕ → ℕ → ℤ) (d : C)
      → 0 < length file
      → length file ≤ max_file
      → pos_part (extra (symbols (length file))) * 1024 < 2 ^ 31
      → xmit_file rq heap sizes extra file_nbr
          (record { opened = some file; seeks = true; tells = true; reopened = some file })
          c
        ≡ ok (true, sent, c')
      → Every (λ p. Has p sent) ps
      → ((j : ℕ) → j < symbols (length file) → Has (source_packet file_nbr file j) ps)
      → repair_count ps ≤ 30
      → Accepts sinks
      → Recovers rq heap file_nbr file fd sinks d ps
  xmit_file-Recovers extra file_nbr file c {sent} {c'} ps fd sinks d some_bytes small few runs
        of_sent all few_repairs accepts =
      let e = pos_part (extra (symbols (length file))) in
      let (repairs, c₁, sends) =
        xmit_file-sends rq heap sizes w extra file_nbr file c some_bytes small few in
      let same : sent ≡ packets e file_nbr file repairs = cc in
      let of_file : Every (IsOfFile file_nbr file) sent =
        subst (Every (IsOfFile file_nbr file)) (sym same) (
          Every-append (IsOfFile file_nbr file)
            (source_packets file_nbr file (symbols (length file)) 0) _
            (source_packets-IsOfFile file_nbr file (symbols (length file)) 0 (omega arith))
            (repair_packets-IsOfFile file_nbr file repairs e 0 (omega arith))) in
      deliver-Recovers rq heap file_nbr file fd sinks d accepts some_bytes small ps
        (Every-imp (λ p. Has p sent) (IsOfFile file_nbr file) ps
          (λ p h. Every-Has (IsOfFile file_nbr file) p sent of_file h) of_sent)
        all few_repairs
