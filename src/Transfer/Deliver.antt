-- ===== src/Transfer/Deliver.antt =====
-- Packets of one file in a state of `segstate_init`: sources and repairs, in any order, repeated or lost.
use rq_route_demo.Base.{
  ℕ, ◌+◌, ◌-◌, ◌*◌, ◌^◌, ◌≤◌, ◌<◌, ◌≡◌, refl, ap, subst, sym, ◌∙◌, ◌⊎◌, arith, true, false, List,
  [], ◌∷◌, mem, length, length-take, drop, slice, ◌==◌, if◌then◌else◌, inl, inr, Every, Has, ok,
  >>=-ok,
}
use rq_route_demo.Packet.{Packet}
use rq_route_demo.Params.Exact.{symbols, max_file}
use rq_route_demo.CodeBlock.Received.{ids, receive, received, pad}
use rq_route_demo.Segment.{SegState, add_packet}
use rq_route_demo.Segment.Packet.{carried}
use rq_route_demo.Sender.{low_16}
use rq_route_demo.Sender.Packets.{source_packet}
use rq_route_demo.Sender.Padding.{padded, pad-slice}
use rq_route_demo.Transfer.{deliver, repair_count}
use rq_route_demo.Transfer.Symbols.{Gathers, Keeps, receive_source, receive_repair}
use rq_route_demo.Transfer.Receives.{Receives, take_one}

module _ (file_nbr : ℕ) (file : List ℕ) where
  abbrev pub IsSource : Packet → Type 0
  IsSource p = (j : ℕ) × (j < symbols (length file)) × (p ≡ source_packet file_nbr file j)

  -- A repair packet of the file, whatever symbol it carries.
  pub record IsRepair (p : Packet) : Type 0 where
    pub repairs : p.0.ens_id ≡ 1
    pub same_file : p.0.toi ≡ low_16 file_nbr
    pub same_size : p.0.tos ≡ length file
    pub id_small : p.0.payload_id < 2 ^ 32
    pub one_symbol : length p.1 ≤ 1024

  abbrev pub IsOfFile : Packet → Type 0
  IsOfFile p = IsSource p ⊎ IsRepair p

  -- What one packet leaves: the symbols gathered, those from before, and the symbol of a source packet.
  record Took {s : SegState} (v : Receives file_nbr file s) (p : Packet) (r : ℕ) (s' : SegState)
      : Type 0 where
    receives : Receives file_nbr file s'
    gathers :
        Gathers
          (symbols (length file))
          (padded file)
          (r + (if p.0.ens_id == 0 then 0 else 1))
          (received receives.valid.block)
    keeps : Keeps (received v.valid.block) (received receives.valid.block)
    source :
        (j : ℕ)
        → source_packet file_nbr file j ≡ p
        → mem j (ids (received receives.valid.block)) ≡ true

  take_source :
      {s : SegState} (v : Receives file_nbr file s) (r : ℕ) (p : Packet)
      → length file ≤ max_file
      → Gathers (symbols (length file)) (padded file) r (received v.valid.block)
      → r ≤ 30
      → IsSource p
      → (s' : SegState) × (add_packet s p.0 p.1 ≡ ok s') × Took v p r s'
  take_source {s} v r p small g few (j, lt, e) =
      let k = symbols (length file) in
      let l = received v.valid.block in
      let offs : p.0.payload_id ≡ j * 1024 = ap (λ q. q.0.payload_id) e in
      let ens : p.0.ens_id ≡ 0 = ap (λ q. q.0.ens_id) e in
      let body : p.1 ≡ slice file (j * 1024) 1024 = ap (λ q. q.1) e in
      let id : carried k p.0 ≡ j = ground arith in
      let one_symbol : length p.1 ≤ 1024 =
        rw body (omega (arith, length-take 1024 (drop (j * 1024) file))) in
      let bytes : pad 1024 p.1 ≡ slice (padded file) (j * 1024) 1024 =
        ap (pad 1024) body
        ∙ pad-slice file (j * 1024) 1024 (k * 1024 - length file) (omega arith) in
      let (s', runs, v', holds) =
        take_one file_nbr file v p.0 p.1 (ap (λ q. q.0.toi) e) (ap (λ q. q.0.tos) e) (omega arith)
          one_symbol in
      let same : receive (k + 30) 1024 l j p.1 ≡ received v'.valid.block =
        sym (holds ∙ ap (λ i. receive (k + 30) 1024 l i p.1) id) in
      let (gathers, keeps, there) = receive_source k (padded file) r l g j p.1 lt few bytes in
      let none_more : r ≡ r + (if p.0.ens_id == 0 then 0 else 1) = ground arith in
      (
        s',
        runs,
        record {
          receives = v';
          gathers =
              subst (λ n. Gathers k (padded file) n (received v'.valid.block)) none_more
                (subst (Gathers k (padded file) r) same gathers);
          keeps = subst (Keeps l) same keeps;
          source = λ i h.
              let at_i : i ≡ j = omega (arith, ap (λ q. q.0.payload_id) (h ∙ e)) in
              rw at_i (subst (λ m. mem j (ids m) ≡ true) same there);
        },
      )

  take_repair :
      {s : SegState} (v : Receives file_nbr file s) (r : ℕ) (p : Packet)
      → Gathers (symbols (length file)) (padded file) r (received v.valid.block)
      → IsRepair p
      → (s' : SegState) × (add_packet s p.0 p.1 ≡ ok s') × Took v p r s'
  take_repair {s} v r p g q =
      let k = symbols (length file) in
      let l = received v.valid.block in
      let id = carried k p.0 in
      let no_source : (p.0.ens_id == 0) ≡ false = ground (arith, q.repairs) in
      let (s', runs, v', holds) =
        take_one file_nbr file v p.0 p.1 q.same_file q.same_size q.id_small q.one_symbol in
      let (gathers, keeps) =
        receive_repair k (padded file) r l g id p.1 (ground (arith, q.repairs)) in
      (
        s',
        runs,
        record {
          receives = v';
          gathers = rw no_source (subst (Gathers k (padded file) (r + 1)) (sym holds) gathers);
          keeps = subst (Keeps l) (sym holds) keeps;
          source = λ i h. absurd (omega (arith, ap (λ t. t.0.ens_id) h, q.repairs));
        },
      )

  -- What a sequence of packets leaves.
  pub record Delivered {s : SegState} (v : Receives file_nbr file s) (ps : List Packet) (r : ℕ)
      (s' : SegState) : Type 0 where
    pub receives : Receives file_nbr file s'
    pub gathers :
        Gathers
          (symbols (length file))
          (padded file)
          (r + repair_count ps)
          (received receives.valid.block)
    pub keeps : Keeps (received v.valid.block) (received receives.valid.block)
    pub sources :
        (j : ℕ)
        → Has (source_packet file_nbr file j) ps
        → mem j (ids (received receives.valid.block)) ≡ true

  pub deliver_lem :
      (ps : List Packet) {s : SegState} (v : Receives file_nbr file s) (r : ℕ)
      → length file ≤ max_file
      → Gathers (symbols (length file)) (padded file) r (received v.valid.block)
      → r + repair_count ps ≤ 30
      → Every IsOfFile ps
      → (s' : SegState) × (deliver s ps ≡ ok s') × Delivered v ps r s'
  unfolding deliver
  deliver_lem [] {s} v r small g few of_file =
      let none_more : r ≡ r + 0 = omega arith in
      (
        s,
        refl,
        record {
          receives = v;
          gathers =
              subst (λ n. Gathers (symbols (length file)) (padded file) n (received v.valid.block))
                none_more g;
          keeps = λ i h. h;
          sources = λ j h. absurd h;
        },
      )
  deliver_lem ((header, payload) ∷ ps) {s} v r small g few (is, of_file) =
      let k = symbols (length file) in
      let n : ℕ = if header.ens_id == 0 then 0 else 1 in
      let (s₁, took, t) = one is in
      let (s', rest, d) = deliver_lem ps t.receives (r + n) small t.gathers (omega arith) of_file in
      let sum : r + n + repair_count ps ≡ r + (n + repair_count ps) = omega arith in
      (
        s',
        >>=-ok (add_packet s header payload) _ s₁ took ∙ rest,
        record {
          receives = d.receives;
          gathers =
              subst (λ m. Gathers k (padded file) m (received d.receives.valid.block)) sum
                d.gathers;
          keeps = λ i h. d.keeps i (t.keeps i h);
          sources = λ j h. here_or_later t d j h;
        },
      )
    where
      one :
          IsOfFile (header, payload)
          → (s' : SegState) × (add_packet s header payload ≡ ok s') × Took v (header, payload) r s'
      one (inl q) = take_source v r (header, payload) small g (omega arith) q
      one (inr q) = take_repair v r (header, payload) g q

      here_or_later :
          {s₁ s' : SegState} (t : Took v (header, payload) r s₁)
          → (d : Delivered t.receives ps (r + (if header.ens_id == 0 then 0 else 1)) s') → (j : ℕ)
          → Has (source_packet file_nbr file j) ((header, payload) ∷ ps)
          → mem j (ids (received d.receives.valid.block)) ≡ true
      here_or_later t d j (inl e) = d.keeps j (t.source j e)
      here_or_later t d j (inr h) = d.sources j h
