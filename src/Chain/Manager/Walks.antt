-- ===== src/Chain/Manager/Walks.antt =====
-- monkchain/chain_manager.go: that the walks back end, and where.
use thelonious.Base.{
  ℕ, zero, suc, ◌+◌, ◌-◌, ◌^◌, ◌<◌, List, ◌≡◌, refl, sym, ap, ◌∙◌, inl, inr, if◌then◌else◌, leb,
  ◌==◌, true, false, not, ◌&&◌, Bool-cases, Option, none, some, Option-cases, ok, arith,
}
use mathlib.Core.Path.{subst}
use native.Mathlib.Nat.{mod-eq_of_lt}
use thelonious.Chain.Manager.{Block, ChainManager, get_block}
use thelonious.Chain.Manager.Walking.{
  walk_to, unless_genesis, get_block_by_number, step_back, get_block_back,
}

-- A block whose parent is known is numbered one more than it.
unfoldable pub IsRising : ChainManager → Type 0
IsRising m =
    (h : List ℕ) (b p : Block)
    → get_block h m ≡ some b
    → get_block b.prev_hash m ≡ some p
    → b.number ≡ suc p.number

step_back-none : (k : ℕ) (m : ChainManager) → step_back k none m ≡ none
unfolding step_back
step_back-none zero m = refl
step_back-none (suc k) m = refl

-- The block of a number, counted from a block.
abbrev pub ancestor_at : ℕ → Block → ChainManager → Option Block
ancestor_at num b m = if leb num b.number then step_back (b.number - num) (some b) m else none

ancestor_at-here : (b : Block) (m : ChainManager) → ancestor_at b.number b m ≡ some b
unfolding step_back
ancestor_at-here b m =
    let e : leb b.number b.number ≡ true = ground arith in
    let z : b.number - b.number ≡ 0 = omega arith in rw (e, z) refl

ancestor_at-behind :
    (num : ℕ) (b p : Block) (m : ChainManager)
    → get_block b.prev_hash m ≡ some p
    → b.number ≡ suc p.number
    → (b.number == num) ≡ false
    → ancestor_at num b m ≡ ancestor_at num p m
unfolding step_back
ancestor_at-behind num b p m e r d = elim (Bool-cases (leb num p.number)) [
  | inl l ↦
      let l' : leb num b.number ≡ true = ground arith in
      let k : b.number - num ≡ suc (p.number - num) = ground arith in
      rw (l, l', k) (rw (e, step_back) refl)
  | inr l ↦ let l' : leb num b.number ≡ false = ground arith in rw (l, l') refl
]

ancestor_at-nothing :
    (num : ℕ) (b : Block) (m : ChainManager)
    → get_block b.prev_hash m ≡ none
    → (b.number == num) ≡ false
    → ancestor_at num b m ≡ none
unfolding step_back
ancestor_at-nothing num b m e d = elim (Bool-cases (leb num b.number)) [
  | inl l ↦
      let k : b.number - num ≡ suc (b.number - suc num) = ground arith in
      rw (l, k) (rw (e, step_back) (step_back-none (b.number - suc num) m))
  | inr l ↦ rw l refl
]

same_test : (a num : ℕ) → (a == num) ≡ true → a ≡ num
same_test a num e = ground arith

walk_to-ancestor_at :
    (n num : ℕ) (h : List ℕ) (b : Block) (m : ChainManager)
    → IsRising m
    → get_block h m ≡ some b
    → b.number < n
    → b.number < 2 ^ 64
    → walk_to n num (some b) m ≡ ok (ancestor_at num b m)
unfolding walk_to IsRising
walk_to-ancestor_at zero num h b m r k lt small = absurd (omega arith)
walk_to-ancestor_at (suc n) num h b m r k lt small = elim (Bool-cases (b.number == num)) [
  | inl d ↦
      rw (mod-eq_of_lt small, d)
        (ap (λ o. ok o)
          (sym (
            subst (λ x. ancestor_at x b m ≡ some b) (same_test b.number num d)
              (ancestor_at-here b m))))
  | inr d ↦
      rw (mod-eq_of_lt small, d)
        (elim (Option-cases (get_block b.prev_hash m)) [
          | inl e ↦ rw (e, ancestor_at-nothing num b m e d) refl
          | inr (p, e) ↦
              let up = r h b p k e in
              rw (e, ancestor_at-behind num b p m e up d)
                (walk_to-ancestor_at n num b.prev_hash p m r e (omega arith) (omega arith))
        ])
]

step_back-number :
    (k : ℕ) (h : List ℕ) (b p : Block) (m : ChainManager)
    → IsRising m
    → get_block h m ≡ some b
    → step_back k (some b) m ≡ some p
    → p.number + k ≡ b.number
unfolding step_back IsRising
step_back-number zero h b p m r e f =
    let g : some b ≡ some p = f in let q : b ≡ p = (cc) in grind arith
step_back-number (suc k) h b p m r e f = elim (Option-cases (get_block b.prev_hash m)) [
  | inl g ↦
      let q : none ≡ some p =
        sym (step_back-none k m) ∙ subst (λ o. step_back k o m ≡ some p) g f in
      absurd (cc)
  | inr (c, g) ↦
      let up = r h b c e g in
      let i =
        step_back-number k b.prev_hash c p m r g (subst (λ o. step_back k o m ≡ some p) g f) in
      omega arith
]

ancestor_at-number :
    (num : ℕ) (h : List ℕ) (b p : Block) (m : ChainManager)
    → IsRising m
    → get_block h m ≡ some b
    → ancestor_at num b m ≡ some p
    → p.number ≡ num
ancestor_at-number num h b p m r e f = elim (Bool-cases (leb num b.number)) [
  | inl l ↦ let i = step_back-number (b.number - num) h b p m r e (rw l at f) in ground arith
  | inr l ↦ let q : none ≡ some p = rw l at f in absurd (cc)
]

unless_genesis-same :
    (num : ℕ) (o : Option Block)
    → ((p : Block) → o ≡ some p → p.number ≡ num)
    → num < 2 ^ 64
    → unless_genesis num o ≡ o
unless_genesis-same num none h lt = refl
unless_genesis-same num (some b) h lt =
    let e = h b refl in
    let small : b.number < 2 ^ 64 = omega (arith, e) in rw (mod-eq_of_lt small) (go b.number num e)
  where
    go : (x y : ℕ) → x ≡ y → (if (x == 0) && not (y == 0) then none else some b) ≡ some b
    go x y e = ground arith

-- Where a known parent has the number before its child's, GetBlockByNumber ends within one round
-- more than the head's number and returns the block that GetBlockBack finds as many blocks back as
-- the number is below the head's, and nil for a number above it; a block that is found has the
-- number. Numbers are below 2^64.
pub get_block_by_number-get_block_back :
    (fuel num : ℕ) (m : ChainManager)
    → IsRising m
    → get_block m.current_block_hash m ≡ some m.current_block
    → m.current_block.number < fuel
    → m.current_block.number < 2 ^ 64
    → num < 2 ^ 64
    → let o =
        if leb num m.current_block.number
        then get_block_back (m.current_block.number - num) m
        else none in
      (get_block_by_number fuel num m ≡ ok o) × ((b : Block) → o ≡ some b → b.number ≡ num)
unfolding get_block_by_number get_block_back
get_block_by_number-get_block_back fuel num m r e enough small lt =
    let b = m.current_block in
    let h = m.current_block_hash in
    let numbered : (p : Block) → ancestor_at num b m ≡ some p → p.number ≡ num =
      λ p f. ancestor_at-number num h b p m r e f in
    (
      rw (walk_to-ancestor_at fuel num h b m r e enough small)
          (ap (λ o. ok o) (unless_genesis-same num (ancestor_at num b m) numbered lt)),
      numbered,
    )
