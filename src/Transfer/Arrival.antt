-- ===== src/Transfer/Arrival.antt =====
-- Any packets of one file, whatever symbols they carry: the code block afterwards is the list of symbols
-- received one after the other.
use rq_route_demo.Base.{
  ℕ, ◌+◌, ◌^◌, ◌≤◌, ◌<◌, ◌≡◌, refl, ap, ◌∙◌, List, [], ◌∷◌, mem, length, leb, inl, inr, Every,
  Every-append, Bool-cases, ok, >>=-ok,
}
use rq_route_demo.Packet.{Packet}
use rq_route_demo.Params.Exact.{symbols}
use rq_route_demo.CodeBlock.Received.{Symbol, ids, receive, received, pad}
use rq_route_demo.CodeBlock.Data.Reconstruct.{AreOf}
use rq_route_demo.Segment.{SegState, add_packet}
use rq_route_demo.Segment.Packet.{carried}
use rq_route_demo.Sender.{low_16}
use rq_route_demo.Transfer.{deliver}
use rq_route_demo.Transfer.Receives.{Receives, take_one}

-- The symbols held of a block of `k` source symbols after some packets, first those of `l`.
unfoldable pub arrive : ℕ → List Symbol → List Packet → List Symbol
arrive k l [] = l
arrive k l ((header, payload) ∷ ps) =
    arrive k (receive (k + 30) 1024 l (carried k header) payload) ps

-- The symbols of the packets, filled up, are those of `symbol`.
abbrev pub Carry : ℕ → (ℕ → List ℕ) → List Packet → Type 0
Carry k symbol ps = Every (λ p. pad 1024 p.1 ≡ symbol (carried k p.0)) ps

AreOf-receive :
    (symbol : ℕ → List ℕ) (k id : ℕ) (payload : List ℕ) (l : List Symbol)
    → AreOf symbol l
    → pad 1024 payload ≡ symbol id
    → AreOf symbol (receive (k + 30) 1024 l id payload)
unfolding receive
AreOf-receive symbol k id payload l are is = elim (Bool-cases (leb (k + 30) (length l))) [
  | inl full ↦ rw full are
  | inr room ↦ elim (Bool-cases (mem id (ids l))) [
    | inl known ↦ rw (room, known) are
    | inr new ↦
        rw (room, new)
          (Every-append (λ s. s.1 ≡ symbol s.0) l ((id, pad 1024 payload) ∷ []) are (is, tt))
  ]
]

pub arrive-AreOf :
    (symbol : ℕ → List ℕ) (k : ℕ) (ps : List Packet) (l : List Symbol)
    → AreOf symbol l
    → Carry k symbol ps
    → AreOf symbol (arrive k l ps)
unfolding arrive
arrive-AreOf symbol k [] l are carry = are
arrive-AreOf symbol k ((header, payload) ∷ ps) l are (c, carry) =
    arrive-AreOf symbol k ps (receive (k + 30) 1024 l (carried k header) payload)
      (AreOf-receive symbol k (carried k header) payload l are c) carry

module _ (file_nbr : ℕ) (file : List ℕ) where
  -- A packet with the number and the size of the file, whatever symbol of at most 1024 bytes it carries.
  pub record IsPacket (p : Packet) : Type 0 where
    pub same_file : p.0.toi ≡ low_16 file_nbr
    pub same_size : p.0.tos ≡ length file
    pub id_small : p.0.payload_id < 2 ^ 32
    pub one_symbol : length p.1 ≤ 1024

  -- A file that receives takes any packets with its number and its size, with payloads of at most 1024
  -- bytes and identifiers below 2 ^ 32, without a fault, and its symbols become those that arrived, in the
  -- order of arrival, without repetitions, as far as there is room.
  pub deliver-arrive :
      (ps : List Packet) {s : SegState} (v : Receives file_nbr file s)
      → Every IsPacket ps
      → (s' : SegState) × (deliver s ps ≡ ok s')
        × (v' : Receives file_nbr file s') × (received v'.valid.block
            ≡ arrive (symbols (length file)) (received v.valid.block) ps)
  unfolding deliver arrive
  deliver-arrive [] {s} v are = (s, refl, v, refl)
  deliver-arrive ((header, payload) ∷ ps) {s} v (p, are) =
      let (s₁, takes, v₁, one) =
        take_one file_nbr file v header payload p.same_file p.same_size p.id_small p.one_symbol in
      let (s', rest, v', all) = deliver-arrive ps v₁ are in
      (
        s',
        >>=-ok (add_packet s header payload) _ s₁ takes ∙ rest,
        v',
        all ∙ ap (λ l. arrive (symbols (length file)) l ps) one,
      )
