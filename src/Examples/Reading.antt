-- ===== src/Examples/Reading.antt =====
-- Packets that clients send.
use ed2kd.Base.{
  ◌↔◌, some, ℕ, zero, suc, ◌+◌, ◌<◌, ◌≡◌, ◌≢◌, refl, true, List, [], ◌∷◌, ◌++◌, none, some, arith,
  place, block, length, codes, le16, le32,
}
use ed2kd.Proto.Tt
use ed2kd.Proto.Tn
use ed2kd.Wire.{go}
use ed2kd.Wire.Keeping.{Holds}
use ed2kd.Login.{parse_login}
use ed2kd.Login.Reads.{parse_login-agree}
use ed2kd.Login.Fields.{NickFits, parse_login-NickFits}
use ed2kd.Offer.{parse_offer}
use ed2kd.Offer.Fields.{Offered, parse_offer-FileFits}
use ed2kd.Search.{and, Node, leaf, branch, string, parse_search}
use ed2kd.Search.Loop.{parse_search-ends}
use ed2kd.Search.Prefix.{Reads}
use ed2kd.Search.Complete.{parse_search_iff}
use ed2kd.Search.Query.{no_params, at, walk, passes}
use ed2kd.Search.Query.Walk.{collect, walk-collect_root}
use ed2kd.Examples.{ones, some_client}

abbrev login : List ℕ
login =
    ones
    ++ (le32 0 ++ (le16 4662 ++ (le32 1 ++ (Tt.string ∷ 1 ∷ 0 ∷ Tn.name ∷ 2 ∷ 0 ∷ codes "me"))))

place_agree : (xs : List ℕ) (r r' : ℕ → ℕ) (i : ℕ) → i < length xs → place xs r i ≡ place xs r' i
unfolding place
place_agree [] r r' i h = absurd (omega arith)
place_agree (x ∷ xs) r r' zero h = refl
place_agree (x ∷ xs) r r' (suc i) h = place_agree xs r r' i (omega arith)

parse_login-agree_example :
    parse_login (place login (λ _. 1)) 34 0 some_client ≡ go 34 some_client tt
unfolding parse_login place block
parse_login-agree_example =
    parse_login-agree (place login (λ _. 0)) (place login (λ _. 1)) 34
      (place_agree login (λ _. 0) (λ _. 1)) 0 34 some_client some_client refl

parse_login-NickFits_example : Holds NickFits (parse_login (place login (λ _. 0)) 34 0 some_client)
parse_login-NickFits_example =
    parse_login-NickFits (place login (λ _. 0)) 34 0 some_client (omega arith, omega arith)

abbrev offer : List ℕ
offer =
    le32 1
    ++ (ones
        ++ (le32 0xfbfbfbfb
            ++ (le16 0xfbfb ++ (le32 1 ++ (Tt.uint32 ∷ 1 ∷ 0 ∷ Tn.filesize ∷ le32 100)))))

parse_offer-FileFits_example : Offered 200 (parse_offer (place offer (λ _. 0)) 38 0 tt)
parse_offer-FileFits_example = parse_offer-FileFits (place offer (λ _. 0)) 38 0

-- "a" and "b", in prefix notation.
abbrev search_bytes : List ℕ
search_bytes = 0 ∷ 0 ∷ 1 ∷ 1 ∷ 0 ∷ 97 ∷ 1 ∷ 1 ∷ 0 ∷ 98 ∷ []

abbrev search_tree : Node
search_tree = branch and true (leaf (string (97 ∷ []))) (leaf (string (98 ∷ [])))

parse_search_iff_example :
    (parse_search (place search_bytes (λ _. 0)) 10 ≡ some (go 10 tt search_tree))
    ↔ Reads (place search_bytes (λ _. 0)) 10 0 10 search_tree
parse_search_iff_example = parse_search_iff (place search_bytes (λ _. 0)) 10 10 search_tree

parse_search-ends_example : parse_search (place search_bytes (λ _. 0)) 10 ≢ none
parse_search-ends_example = parse_search-ends (place search_bytes (λ _. 0)) 10

walk-collect_root_example :
    walk (passes search_tree + 1) (at search_tree) [] no_params
    ≡ some (collect search_tree no_params)
walk-collect_root_example = walk-collect_root search_tree
