-- ===== src/Tests/Cache.antt =====
-- The trie's cache at concrete inputs, with bytes for values.
use thelonious.Base.{◌⊎◌, ◌<◌, length, ℕ, ◌≡◌, refl, List, [], ◌∷◌, false, none, some}
use thelonious.Trie.Cache.{Cache, find, put_entry, get, commit, undo, delete}
use thelonious.Trie.Cache.Laws.{IsCoherent, get-commit}
use thelonious.Trie.Cache.Steps.{still, puts, undo-Worked, steps-IsCoherent}

abbrev same : List ℕ → List ℕ
same b = b

-- An encoding that does not decode to the value.
abbrev enc : List ℕ → List ℕ
enc b = 0 ∷ b

-- A database with a value, and nothing in the cache.
abbrev opened : Cache (List ℕ)
opened = record { nodes = []; db = (1 ∷ [], 7 ∷ []) ∷ []; is_dirty = false }

opened-IsCoherent : IsCoherent same opened
unfolding find
opened-IsCoherent = (
  tt,
  (λ k e q y. absurd (let f : none ≡ some e = q in cc)),
  λ k e q y. absurd (let f : none ≡ some e = q in cc),
)

steps-IsCoherent_example :
    IsCoherent same (put_entry (1 ∷ []) (9 ∷ []) opened)
    × IsCoherent same (get same (1 ∷ []) opened).1
    × IsCoherent same (delete (1 ∷ []) opened)
    × IsCoherent same (undo opened)
steps-IsCoherent_example = steps-IsCoherent same (1 ∷ []) (9 ∷ []) opened opened-IsCoherent

abbrev changed : Cache (List ℕ)
changed = put_entry (1 ∷ []) (9 ∷ []) opened

get-commit_example :
    ((get same (1 ∷ []) (commit enc changed)).0 ≡ (get same (1 ∷ []) changed).0)
    ⊎ ((200 < length changed.nodes)
        × ((get same (1 ∷ []) (commit enc changed)).0 ≡ same (enc (get same (1 ∷ []) changed).0)))
get-commit_example = get-commit same enc (1 ∷ []) changed steps-IsCoherent_example.0

undo-Worked_example : (get same (1 ∷ []) (undo changed)).0 ≡ (get same (1 ∷ []) opened).0
undo-Worked_example =
    undo-Worked same (1 ∷ []) opened changed opened-IsCoherent refl (puts (1 ∷ []) (9 ∷ []) still)

get_runs : (get same (1 ∷ []) changed).0 ≡ 9 ∷ []
unfolding get put_entry
get_runs = refl
