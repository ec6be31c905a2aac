-- ===== src/Memory/Owner.antt =====
-- Frames against page tables, in src/memory.c: who owns what.
use native.Mathlib.Decide.{ℕ_discrete}
use fleetos.Base.{
  ℕ, zero, suc, ◌<◌, ◌≡◌, ◌≢◌, refl, ap, sym, ◌∙◌, ◌⊎◌, inl, inr, List, [], ◌∷◌, arith, length,
  get_or, set, length-set, get_or-set_self, get_or-set_ne, ℤ, pos, minus_one,
}
use fleetos.Types.{frame_count, max_pages}

-- The page table of the process `pid` and the frames name each other: a page's frame is the
-- process's and holds that page, and a frame of the process is the frame of its page.
pub record Owns (frames pages : List ℤ) (pid : ℤ) (table : List ℤ) : Type 0 where
  pub size : length table ≡ max_pages
  pub forward :
      (q f : ℕ)
      → q < max_pages
      → get_or table q minus_one ≡ pos f
      → (f < frame_count) × (get_or frames f minus_one ≡ pid) × (get_or pages f minus_one ≡ pos q)
  pub backward :
      (f : ℕ)
      → f < frame_count
      → get_or frames f minus_one ≡ pid
      → (q : ℕ) × (q < max_pages)
        × (get_or pages f minus_one ≡ pos q)
        × (get_or table q minus_one ≡ pos f)
  pub mapped_or_not :
      (q : ℕ)
      → (get_or table q minus_one ≡ minus_one) ⊎ ((f : ℕ) × (get_or table q minus_one ≡ pos f))

pos-injective : {a b : ℕ} → pos a ≡ pos b → a ≡ b
pos-injective e = ground arith

pos-ne-minus_one : {a : ℕ} → pos a ≢ minus_one
pos-ne-minus_one e = ground arith

-- Reading with a default what holds the default.
pub get_or-set_default {ℓ} :
    {A : Type ℓ} (xs : List A) (i : ℕ) (d : A) → get_or (set xs i d) i d ≡ d
get_or-set_default [] i d = refl
get_or-set_default (x ∷ xs) zero d = refl
get_or-set_default (x ∷ xs) (suc i) d = get_or-set_default xs i d

abbrev at_frame : List ℤ → ℕ → ℤ
at_frame xs i = get_or xs i minus_one

mapped_set :
    (table : List ℤ) (p : ℕ) (v : ℤ)
    → ((v ≡ minus_one) ⊎ ((f : ℕ) × (v ≡ pos f)))
    → ((q : ℕ)
        → (get_or table q minus_one ≡ minus_one) ⊎ ((f : ℕ) × (get_or table q minus_one ≡ pos f)))
    → (q : ℕ)
    → (get_or (set table p v) q minus_one ≡ minus_one)
      ⊎ ((f : ℕ) × (get_or (set table p v) q minus_one ≡ pos f))
mapped_set [] p v hv h q = inl refl
mapped_set (x ∷ table) zero v hv h zero = hv
mapped_set (x ∷ table) zero v hv h (suc q) = h (suc q)
mapped_set (x ∷ table) (suc p) v hv h zero = h zero
mapped_set (x ∷ table) (suc p) v hv h (suc q) = mapped_set table p v hv (λ k. h (suc k)) q

module _ (frames pages : List ℤ) (pid : ℤ) (table : List ℤ) (f : ℕ)
    (o : Owns frames pages pid table) (real : pid ≢ minus_one) where
  -- A frame that is not the process's may lose its owner.
  pub release_other :
      get_or frames f minus_one ≢ pid → Owns (set frames f minus_one) pages pid table
  release_other other = record {
    size = o.size;
    forward = λ q g h e.
        let (within, owner, page) = o.forward q g h e in
        (
          within,
          get_or-set_ne frames f g minus_one minus_one (λ s. other (ap (at_frame frames) s ∙ owner))
              ∙ owner,
          page,
        );
    backward = λ g h e. elim (ℕ_discrete f g) [
      | yes s ↦ absurd (
          real (
            sym e
            ∙ ap (at_frame (set frames f minus_one)) (sym s)
            ∙ get_or-set_default frames f minus_one))
      | no s ↦ o.backward g h (sym (get_or-set_ne frames f g minus_one minus_one s) ∙ e)
    ];
    mapped_or_not = o.mapped_or_not;
  }

  -- A frame of the process loses its owner, and its page the entry.
  pub release_mine :
      (v : ℕ)
      → f < frame_count
      → get_or frames f minus_one ≡ pid
      → get_or pages f minus_one ≡ pos v
      → Owns (set frames f minus_one) pages pid (set table v minus_one)
  release_mine v within mine holds = record {
    size = length-set table v minus_one ∙ o.size;
    forward = λ q g h e.
        let apart : v ≢ q = λ s. pos-ne-minus_one (
          sym e
          ∙ ap (at_frame (set table v minus_one)) (sym s)
          ∙ get_or-set_default table v minus_one) in
        let (w, owner, page) =
          o.forward q g h (sym (get_or-set_ne table v q minus_one minus_one apart) ∙ e) in
        (
          w,
          get_or-set_ne frames f g minus_one minus_one
                (λ s. apart (pos-injective (sym holds ∙ ap (at_frame pages) s ∙ page)))
              ∙ owner,
          page,
        );
    backward = λ g h e. elim (ℕ_discrete f g) [
      | yes s ↦ absurd (
          real (
            sym e
            ∙ ap (at_frame (set frames f minus_one)) (sym s)
            ∙ get_or-set_default frames f minus_one))
      | no s ↦
          (let (q, small, page, entry) =
              o.backward g h (sym (get_or-set_ne frames f g minus_one minus_one s) ∙ e) in
            let (r, _, holds', back) = o.backward f within mine in
            let same : r ≡ v = pos-injective (sym holds' ∙ holds) in
            (
              q,
              small,
              page,
              get_or-set_ne table v q minus_one minus_one
                    (λ t. s (pos-injective (sym back ∙ ap (at_frame table) (same ∙ t) ∙ entry)))
                  ∙ entry,
            ))
    ];
    mapped_or_not = mapped_set table v minus_one (inl refl) o.mapped_or_not;
  }

  module _ (free : get_or frames f minus_one ≡ minus_one) where
    not_free : (q g : ℕ) → q < max_pages → get_or table q minus_one ≡ pos g → f ≢ g
    not_free q g h e s = real (sym (o.forward q g h e).1 ∙ ap (at_frame frames) (sym s) ∙ free)

    -- A free frame goes to a page of another process.
    pub install_other :
        (new : ℤ) (page : ℕ)
        → f < length frames
        → new ≢ pid
        → Owns (set frames f new) (set pages f (pos page)) pid table
    install_other new page hf other = record {
      size = o.size;
      forward = λ q g h e.
          let (w, owner, held) = o.forward q g h e in
          let apart = not_free q g h e in
          (
            w,
            get_or-set_ne frames f g new minus_one apart ∙ owner,
            get_or-set_ne pages f g (pos page) minus_one apart ∙ held,
          );
      backward = λ g h e. elim (ℕ_discrete f g) [
        | yes s ↦ absurd (
            other (
              sym (get_or-set_self frames f new minus_one hf)
              ∙ ap (at_frame (set frames f new)) s
              ∙ e))
        | no s ↦
            (let (q, small, held, entry) =
                o.backward g h (sym (get_or-set_ne frames f g new minus_one s) ∙ e) in
              (q, small, get_or-set_ne pages f g (pos page) minus_one s ∙ held, entry))
      ];
      mapped_or_not = o.mapped_or_not;
    }

    -- A free frame goes to a page of the process that has none.
    pub install_self :
        (page : ℕ)
        → f < length frames
        → f < length pages
        → f < frame_count
        → page < max_pages
        → get_or table page minus_one ≡ minus_one
        → Owns (set frames f pid) (set pages f (pos page)) pid (set table page (pos f))
    install_self page hf hp hc small absent = record {
      size = length-set table page (pos f) ∙ o.size;
      forward = λ q g h e. elim (ℕ_discrete page q) [
        | yes s ↦
            (let same : f ≡ g = pos-injective (
                sym (get_or-set_self table page (pos f) minus_one (rw o.size small))
                ∙ ap (at_frame (set table page (pos f))) s
                ∙ e) in
              (
                rw (← same) hc,
                rw (← same) (get_or-set_self frames f pid minus_one hf),
                rw (← same, ← s) (get_or-set_self pages f (pos page) minus_one hp),
              ))
        | no s ↦
            (let old : get_or table q minus_one ≡ pos g =
                sym (get_or-set_ne table page q (pos f) minus_one s) ∙ e in
              let (w, owner, held) = o.forward q g h old in
              let apart = not_free q g h old in
              (
                w,
                get_or-set_ne frames f g pid minus_one apart ∙ owner,
                get_or-set_ne pages f g (pos page) minus_one apart ∙ held,
              ))
      ];
      backward = λ g h e. elim (ℕ_discrete f g) [
        | yes s ↦ (
          page,
          small,
          rw (← s) (get_or-set_self pages f (pos page) minus_one hp),
          rw (← s) (get_or-set_self table page (pos f) minus_one (rw o.size small)),
        )
        | no s ↦
            (let (q, within, held, entry) =
                o.backward g h (sym (get_or-set_ne frames f g pid minus_one s) ∙ e) in
              (
                q,
                within,
                get_or-set_ne pages f g (pos page) minus_one s ∙ held,
                get_or-set_ne table page q (pos f) minus_one
                      (λ t. pos-ne-minus_one (sym entry ∙ ap (at_frame table) (sym t) ∙ absent))
                    ∙ entry,
              ))
      ];
      mapped_or_not = mapped_set table page (pos f) (inr (f, refl)) o.mapped_or_not;
    }
