-- ===== src/Receiver/Invariant.antt =====
-- What holds of the window before every iteration of the loop.
use rq_route_demo.Base.{
  ℕ, ◌+◌, ◌≤◌, ◌<◌, ◌≡◌, ◌≢◌, refl, sym, subst, ◌∙◌, ◌⊎◌, arith, Bool, true, false, Option, none,
  some, inl, inr, ◌==◌, if◌then◌else◌, Bool-cases,
}
use rq_route_demo.SegmentSet.{SegmentSet, slot, put, inc_min_file_nbr, mark_readytowrite}
use rq_route_demo.SegmentSet.Window.{
  IsValid, view, inc_min_file_nbr-IsValid, min-inc_min_file_nbr, view-inc_min_file_nbr,
}
use rq_route_demo.SegmentSet.Marks.{map_marked}
use rq_route_demo.SegmentSet.Updates.{Updated, put-Updated, mark-Updated}
use rq_route_demo.Segment.{SegState, receiving, ready_for_write}
use rq_route_demo.Receiver.{file_state, is_newer}

-- File `n` is older than the newest file.
abbrev pub Before : ℕ → Option ℕ → Type 0
Before n none = ⊥
Before n (some m) = n < m

-- The window begins at the newest file or before it; at file 0 when there is none.
abbrev pub Reached : ℕ → Option ℕ → Type 0
Reached n none = n ≡ 0
Reached n (some m) = n ≤ m

abbrev pub Below : ℕ → Option ℕ → Type 0
Below n none = Unit {0}
Below n (some m) = m < n

-- A file's state has its number, and unless it receives, the file is older than the newest one.
abbrev pub Fits : Option ℕ → ℕ → SegState → Type 0
Fits recv n s = (s.file_nbr ≡ n) × (s.mode ≢ receiving → Before n recv)

pub record Inv (n_segments : ℕ) (ss : SegmentSet SegState) (recv : Option ℕ) : Type 0 where
  pub valid : IsValid ss
  pub fits : (n : ℕ) (s : SegState) → view ss n ≡ some s → Fits recv n s
  pub reached : Reached ss.min_file_nbr recv
  pub below : Below n_segments recv

-- A table of fitting states with one more fitting state.
Fits-with :
    (recv : Option ℕ) (m n : ℕ) (s t : SegState) (old : Option SegState)
    → Fits recv n s
    → (old ≡ some t → Fits recv m t)
    → (if m == n then some s else old) ≡ some t
    → Fits recv m t
Fits-with recv m n s t old f g h = elim (Bool-cases (m == n)) [
  | inl same ↦
      let at_n : n ≡ m = ground arith in
      let is_s : s ≡ t = ground arith in
      subst (λ k. Fits recv k t) at_n (subst (λ u. Fits recv n u) is_s f)
  | inr other ↦ g (ground arith)
]

-- Marking the files before a newer one keeps the states fitting.
Fits-marked :
    (recv : Option ℕ) (m n : ℕ) (t : SegState) (old : Option SegState)
    → is_newer n recv ≡ true
    → ((s : SegState)
        → old ≡ some s
        → Fits recv m s ⊎ ((m ≡ n) × (s.file_nbr ≡ m) × (s.mode ≡ receiving)))
    → map_marked n old ≡ some t
    → Fits (some n) m t
unfolding ready_for_write
Fits-marked recv m n t none newer g h = cc
Fits-marked none m n t (some s) newer g h = ground (arith, g s refl)
Fits-marked (some k) m n t (some s) newer g h = ground (arith, g s refl)

Reached-suc : (recv : Option ℕ) (n : ℕ) → Before n recv → Reached (n + 1) recv
Reached-suc none n h = absurd h
Reached-suc (some m) n h = omega arith

module _ {n_segments : ℕ} {ss : SegmentSet SegState} {recv : Option ℕ}
    (v : Inv n_segments ss recv) where
  -- Writing a state that fits to the place of a file that is shown.
  pub put-Inv :
      (n : ℕ) (s s' : SegState)
      → view ss n ≡ some s
      → Fits recv n s'
      → Inv n_segments (put ss (slot ss n) s') recv
  put-Inv n s s' e f =
      let u = put-Updated v.valid n s' s e in
      record {
        valid = u.valid;
        fits = λ m t h. Fits-with recv m n s' t (view ss m) f (v.fits m t) (sym (u.seen m) ∙ h);
        reached = rw u.same_min v.reached;
        below = v.below;
      }

  -- The window moves on past a file that does not receive.
  pub inc_min_file_nbr-Inv :
      (s : SegState)
      → view ss ss.min_file_nbr ≡ some s
      → s.mode ≢ receiving
      → Inv n_segments (inc_min_file_nbr ss) recv
  inc_min_file_nbr-Inv s e old = record {
    valid = inc_min_file_nbr-IsValid v.valid;
    fits = λ m t h.
        v.fits m t
          (shown (m == ss.min_file_nbr) t (view ss m) (sym (view-inc_min_file_nbr v.valid m) ∙ h));
    reached =
        rw (min-inc_min_file_nbr ss)
          (Reached-suc recv ss.min_file_nbr ((v.fits ss.min_file_nbr s e).1 old));
    below = v.below;
  }
    where
      shown :
          (b : Bool) (t : SegState) (o : Option SegState)
          → (if b then none else o) ≡ some t
          → o ≡ some t
      shown true t o h = cc
      shown false t o h = h

-- The file of the first packet is shown as a receiving file that is not the newest one.
pub initialize-Inv :
    {n_segments : ℕ} {ss ss' : SegmentSet SegState} {recv : Option ℕ} (v : Inv n_segments ss recv)
    → (n : ℕ) (s : SegState) → s.file_nbr ≡ n
    → s.mode ≡ receiving
    → is_newer n recv ≡ false
    → Updated ss ss' (λ m. if m == n then some s else view ss m)
    → Inv n_segments ss' recv
initialize-Inv {n_segments} {ss} {ss'} {recv} v n s numbered mode old u = record {
  valid = u.valid;
  fits = λ m t h.
      Fits-with recv m n s t (view ss m) (numbered, λ ne. absurd (ne mode)) (v.fits m t)
        (sym (u.seen m) ∙ h);
  reached = rw u.same_min v.reached;
  below = v.below;
}

-- The same for a file that is newer than the others: those become ready.
pub newer-Inv :
    {n_segments : ℕ} {ss ss' : SegmentSet SegState} {recv : Option ℕ} (v : Inv n_segments ss recv)
    → (n : ℕ) (s : SegState) → s.file_nbr ≡ n
    → s.mode ≡ receiving
    → is_newer n recv ≡ true
    → ss.min_file_nbr ≤ n
    → n < n_segments
    → Updated ss ss' (λ m. if m == n then some s else view ss m)
    → Inv n_segments (mark_readytowrite ss' n) (some n)
newer-Inv {n_segments} {ss} {ss'} {recv} v n s numbered mode newer in_window below u =
    let w = mark-Updated u.valid n in
    record {
      valid = w.valid;
      fits = λ m t h.
          Fits-marked recv m n t (view ss' m) newer (λ t' h'. cases m t' h') (sym (w.seen m) ∙ h);
      reached = rw (w.same_min, u.same_min) in_window;
      below = below;
    }
  where
    cases :
        (m : ℕ) (t : SegState)
        → view ss' m ≡ some t
        → Fits recv m t ⊎ ((m ≡ n) × (t.file_nbr ≡ m) × (t.mode ≡ receiving))
    cases m t h = elim (Bool-cases (m == n)) [
      | inl same ↦ inr (ground (arith, u.seen m))
      | inr other ↦ inl (v.fits m t (sym (rw other at (u.seen m)) ∙ h))
    ]
