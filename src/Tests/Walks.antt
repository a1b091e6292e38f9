-- ===== src/Tests/Walks.antt =====
-- The walks back along two blocks.
use thelonious.Base.{
  ℕ, suc, ◌≡◌, refl, ◌⊎◌, inl, inr, sym, ap, ◌∙◌, Option-cases, ◌==◌, List, [], ◌∷◌, true, false,
  none, some, ok, arith,
}
use thelonious.Trie.Cache.{find}
use mathlib.Core.Path.{subst}
use thelonious.Trie.Cache.Maps.{find-store_cases}
use thelonious.Chain.Manager.{
  calc_difficulty, calculate_block_td, Block, ChainManager, working_link, get_block,
  get_block_working, get_block_canonical,
}
use thelonious.Chain.Manager.Adding.{set_total_difficulty, write_block_info, add}
use thelonious.Chain.Manager.Walking.{
  has_block_with_prev_hash, get_block_by_number, get_block_back, get_chain_hashes_from_hash,
}
use thelonious.Chain.Manager.Checkpoints.{receive_check_point_block, reset_chain}
use thelonious.Chain.Manager.Hashes.{get_chain_hashes_from_hash_lem, IsComplete, IsHashesOf}
use thelonious.Chain.Manager.Walks.{IsRising, get_block_by_number-get_block_back}
use thelonious.Tests.Manager.{block, first_block, second_block, empty_manager, started}

abbrev pub two_blocks : ChainManager
two_blocks = add second_block (set_total_difficulty 200 started)

found_canonical :
    (h : List ℕ) (b : Block) (m : ChainManager)
    → m.working_tree ≡ []
    → m.working_chain ≡ none
    → get_block h m ≡ some b
    → find h m.blocks ≡ some b
unfolding get_block get_block_canonical get_block_working working_link find
found_canonical h b m t w e = elim (Option-cases (find h m.blocks)) [
  | inr (x, f) ↦ let g : some x ≡ some b = rw (f, get_block) at e in f ∙ g
  | inl f ↦
      let g : get_block_working h m ≡ some b = rw (f, get_block) at e in
      let k : working_link h m ≡ none = rw (t, w) refl in
      let q : none ≡ some b = rw (k, get_block_working) at g in absurd (cc)
]

found_cases :
    (h : List ℕ) (b : Block)
    → get_block h two_blocks ≡ some b
    → (b ≡ second_block) ⊎ (b ≡ first_block)
unfolding add write_block_info set_total_difficulty find
found_cases h b e =
    elim (find-store_cases h (2 ∷ []) second_block b started.blocks
      (found_canonical h b two_blocks refl refl e)) [
        | inl (q, r) ↦ inl (sym r)
        | inr f ↦ elim (find-store_cases h (1 ∷ []) first_block b [] f) [
          | inl (q, r) ↦ inr (sym r)
          | inr g ↦ let n : none ≡ some b = g in absurd (cc)
        ]
      ]

two_blocks-IsRising : IsRising two_blocks
unfolding IsRising add set_total_difficulty get_block
two_blocks-IsRising h b p e f = elim (found_cases h b e) [
  | inl r ↦
      let g : some first_block ≡ some p =
        subst (λ x. get_block x.prev_hash two_blocks ≡ some p) r f in
      let q : first_block ≡ p = (cc) in ap (λ x. x.number) r ∙ ap (λ x. suc x.number) q
  | inr r ↦
      let g : none ≡ some p = subst (λ x. get_block x.prev_hash two_blocks ≡ some p) r f in
      absurd (cc)
]

two_blocks-IsComplete : IsComplete two_blocks
unfolding IsComplete add set_total_difficulty get_block
two_blocks-IsComplete h b e n = elim (found_cases h b e) [
  | inl r ↦ (first_block, ap (λ x. get_block x.prev_hash two_blocks) r)
  | inr r ↦ let g : true ≡ false = sym (ap (λ x. x.number == 0) r) ∙ n in absurd (cc)
]

get_block_by_number-get_block_back_example :
    (get_block_by_number 2 0 two_blocks ≡ ok (some first_block))
    × ((b : Block) → some first_block ≡ some b → b.number ≡ 0)
unfolding add set_total_difficulty get_block get_block_back
get_block_by_number-get_block_back_example =
    get_block_by_number-get_block_back 2 0 two_blocks two_blocks-IsRising refl (omega arith)
      (omega arith) (omega arith)

get_chain_hashes_from_hash_lem_example :
    (hs : List (List ℕ)) × (get_chain_hashes_from_hash (2 ∷ []) 5 two_blocks ≡ ok hs)
    × IsHashesOf two_blocks 5 second_block hs
unfolding add set_total_difficulty get_block
get_chain_hashes_from_hash_lem_example =
    get_chain_hashes_from_hash_lem (2 ∷ []) 5 second_block two_blocks two_blocks-IsRising
      two_blocks-IsComplete refl

other_operations :
    (calc_difficulty (block 2 1 1 0) (record first_block { time = 0; difficulty = 2048 }) ≡ 2050)
    × (calc_difficulty (record first_block { time = 5 }) (record first_block { difficulty = 2048 })
        ≡ 2046)
    × (calculate_block_td (record first_block { uncles = 7 ∷ 8 ∷ [] }) ≡ 115)
    × (has_block_with_prev_hash 2 (0 ∷ []) two_blocks ≡ ok true)
    × ((reset_chain empty_manager).last_block ≡ some first_block)
unfolding calc_difficulty calculate_block_td has_block_with_prev_hash reset_chain add
    set_total_difficulty
other_operations = (refl, refl, refl, refl, refl)

-- A checkpoint block becomes the head, and the number beside the head counts it as one more block.
checkpoint_number :
    let m = record started { latest_check_point_hash = 9 ∷ [] } in
    let r = receive_check_point_block (some (block 9 8 50 100)) m in
    (r.0 ≡ true) × (r.1.current_block.number ≡ 50) × (r.1.current_block_number ≡ 1)
unfolding add set_total_difficulty receive_check_point_block
checkpoint_number = (refl, refl, refl)
