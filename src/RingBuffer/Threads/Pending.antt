-- ===== src/RingBuffer/Threads/Pending.antt =====
-- The writes to items that are half done.
use zephyrlog.Prelude.{
  ℕ, ◌≡◌, ◌≢◌, sym, ap, ◌∙◌, Option, none, some, get_elem?, set, arith, get_elem?-set_self,
  get_elem?-set_ne, lt-length, eqb_refl, List,
}
use native.Mathlib.Decide.{ℕ_discrete}
use zephyrlog.LogLine.Moved.{moved_from}
use zephyrlog.RingBuffer.{Item}
use zephyrlog.RingBuffer.Threads.{Pc, moved, took, update_pc, System}
use zephyrlog.RingBuffer.Threads.Exclusion.{Inv, holds}

-- The item that a thread has still to complete, and what it will hold.
abbrev pub pending : Pc → Option (ℕ × Item)
pending (moved i l) = some (i, record { written = 1; logline = l })
pending (took i l) = some (i, record { written = 0; logline = moved_from l })
pending _ = none

pub pending-holds : (p : Pc) (i : ℕ) (item : Item) → pending p ≡ some (i, item) → holds p ≡ some i
pending-holds p i item e = ground arith

abbrev pub Untouched : (ℕ → Pc) → ℕ → Type 0
Untouched pc j = (b : ℕ) (item : Item) → pending (pc b) ≢ some (j, item)

-- `items` is the ring with all pending writes done.
pub record Completes (pc : ℕ → Pc) (ring items : List Item) : Type 0 where
  pub same : (j : ℕ) → Untouched pc j → get_elem? items j ≡ get_elem? ring j
  pub over :
      (b j : ℕ) (item : Item) → pending (pc b) ≡ some (j, item) → get_elem? items j ≡ some item

pub update_pc_self : (a : ℕ) (p : Pc) (pc : ℕ → Pc) → update_pc a p pc a ≡ p
update_pc_self a p pc = rw (eqb_refl a)

pub update_pc_ne : (a b : ℕ) (p : Pc) (pc : ℕ → Pc) → b ≢ a → update_pc a p pc b ≡ pc b
update_pc_ne a b p pc h = ground arith

module _ (s : System) (inv : Inv s) (a : ℕ) (p' : Pc) where
  abbrev pc' : ℕ → Pc
  pc' = update_pc a p' s.pc

  abbrev ring : List Item
  ring = s.mem.ring.ring

  -- A move between places with nothing pending.
  pub keep :
      (items : List Item)
      → pending (s.pc a) ≡ none
      → pending p' ≡ none
      → Completes s.pc ring items
      → Completes pc' ring items
  keep items e e' c = record {
    same = λ j free. c.same j (λ b item h. free b item (pending_eq b ∙ h));
    over = λ b j item h. c.over b j item (sym (pending_eq b) ∙ h);
  }
    where
      pending_eq : (b : ℕ) → pending (pc' b) ≡ pending (s.pc b)
      pending_eq b = elim (ℕ_discrete b a) [
        | yes at ↦
            ap (λ (k : ℕ). pending (pc' k)) at
            ∙ ap pending (update_pc_self a p' s.pc)
            ∙ e'
            ∙ sym (ap (λ (k : ℕ). pending (s.pc k)) at ∙ e)
        | no off ↦ ap pending (update_pc_ne a b p' s.pc off)
      ]

  -- Nothing else is pending at the item that the thread holds.
  pub untouched : (i : ℕ) → holds (s.pc a) ≡ some i → pending (s.pc a) ≡ none → Untouched s.pc i
  untouched i mine e b item h =
      let at : b ≡ a = inv.unique b a i (pending-holds (s.pc b) i item h) mine in
      let no_item : none ≡ some (i, item) = sym e ∙ ap (λ (k : ℕ). pending (s.pc k)) (sym at) ∙ h in
      cc no_item

  -- A write that takes effect at once, with the rest of the section to come.
  pub begin_write :
      (items : List Item) (i : ℕ) (item now final : Item)
      → holds (s.pc a) ≡ some i
      → pending (s.pc a) ≡ none
      → pending p' ≡ some (i, final)
      → get_elem? items i ≡ some item
      → Completes s.pc ring items
      → Completes pc' (set ring i now) (set items i final)
  begin_write items i item now final mine e e' there c = record { same = same; over = over }
    where
      own : pending (pc' a) ≡ some (i, final)
      own = ap pending (update_pc_self a p' s.pc) ∙ e'

      same :
          (j : ℕ) → Untouched pc' j → get_elem? (set items i final) j ≡ get_elem? (set ring i now) j
      same j free =
          let off : i ≢ j = λ at. free a final (own ∙ ap (λ (k : ℕ). some (k, final)) at) in
          get_elem?-set_ne items final off
          ∙ c.same j (λ b o h. elim (ℕ_discrete b a) [
            | yes at ↦
                (let no_item : none ≡ some (j, o) =
                    sym e ∙ ap (λ (k : ℕ). pending (s.pc k)) (sym at) ∙ h in
                  cc no_item)
            | no away ↦ free b o (ap pending (update_pc_ne a b p' s.pc away) ∙ h)
          ])
          ∙ sym (get_elem?-set_ne ring now off)

      over :
          (b j : ℕ) (o : Item)
          → pending (pc' b) ≡ some (j, o)
          → get_elem? (set items i final) j ≡ some o
      over b j o h = elim (ℕ_discrete b a) [
        | yes at ↦
            let found : some (i, final) ≡ some (j, o) =
              sym own ∙ ap (λ (k : ℕ). pending (pc' k)) (sym at) ∙ h in
            let here : i ≡ j = cc found in
            let this : final ≡ o = cc found in
            rw (← here, ← this) (get_elem?-set_self items i final (lt-length items i there))
        | no away ↦
            let old : pending (s.pc b) ≡ some (j, o) =
              sym (ap pending (update_pc_ne a b p' s.pc away)) ∙ h in
            let off : i ≢ j = λ at.
              away (inv.unique b a i (pending-holds (s.pc b) j o old ∙ ap some (sym at)) mine) in
            get_elem?-set_ne items final off ∙ c.over b j o old
      ]

  -- The write that completes it.
  pub end_write :
      (items : List Item) (i : ℕ) (item final : Item)
      → holds (s.pc a) ≡ some i
      → pending (s.pc a) ≡ some (i, final)
      → pending p' ≡ none
      → get_elem? ring i ≡ some item
      → Completes s.pc ring items
      → Completes pc' (set ring i final) items
  end_write items i item final mine e e' there c = record { same = same; over = over }
    where
      same : (j : ℕ) → Untouched pc' j → get_elem? items j ≡ get_elem? (set ring i final) j
      same j free = elim (ℕ_discrete i j) [
        | yes at ↦
            rw (← at)
              (c.over a i final e ∙ sym (get_elem?-set_self ring i final (lt-length ring i there)))
        | no off ↦
            c.same j (λ b o h. elim (ℕ_discrete b a) [
              | yes same_thread ↦
                  (let found : some (i, final) ≡ some (j, o) =
                      sym e ∙ ap (λ (k : ℕ). pending (s.pc k)) (sym same_thread) ∙ h in
                    off (cc found))
              | no away ↦ free b o (ap pending (update_pc_ne a b p' s.pc away) ∙ h)
            ])
            ∙ sym (get_elem?-set_ne ring final off)
      ]

      over : (b j : ℕ) (o : Item) → pending (pc' b) ≡ some (j, o) → get_elem? items j ≡ some o
      over b j o h = elim (ℕ_discrete b a) [
        | yes at ↦
            (let found : none ≡ some (j, o) =
                sym (ap pending (update_pc_self a p' s.pc) ∙ e')
                ∙ ap (λ (k : ℕ). pending (pc' k)) (sym at)
                ∙ h in
              cc found)
        | no away ↦ c.over b j o (sym (ap pending (update_pc_ne a b p' s.pc away)) ∙ h)
      ]
