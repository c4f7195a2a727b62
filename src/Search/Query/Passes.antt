-- ===== src/Search/Query/Passes.antt =====
-- src/db_sqlite.c, db_search_files: the walk over the tree of a search. It follows parent pointers and
-- the visited flags of the nodes; here the ancestors are a list of visits.
use ed2kd.Base.{
  ℕ, zero, suc, ◌+◌, Bool, List, [], ◌∷◌, ◌++◌, Option, none, some, if◌then◌else◌, ltb, ◌==◌,
  length, codes,
}
use ed2kd.Search.{
  Oper, and, or, not, Leaf, empty, string, extension, codec, type, minsize, maxsize, srcavail,
  srccomplete, minbitrate, minlength, Node, leaf, branch,
}

-- MAX_NAME_TERM_LEN
abbrev pub max_name_term_len : ℕ
max_name_term_len = 1024

-- The local structure `params`. `name_term` is the text up to its null byte; a node that is NULL
-- is `none`.
pub record Params : Type 0 where
  pub name_term : List ℕ
  pub name_len : ℕ
  pub minsize : ℕ
  pub maxsize : ℕ
  pub srcavail : ℕ
  pub srccomplete : ℕ
  pub minbitrate : ℕ
  pub minlength : ℕ
  pub ext_node : Option (List ℕ)
  pub codec_node : Option (List ℕ)
  pub type_node : Option (List ℕ)

abbrev pub no_params : Params
no_params = record {
  name_term = [];
  name_len = 0;
  minsize = 0;
  maxsize = 0;
  srcavail = 0;
  srccomplete = 0;
  minbitrate = 0;
  minlength = 0;
  ext_node = none;
  codec_node = none;
  type_node = none;
}

-- What strncat appends: the bytes before a null byte.
unfoldable pub until_nul : List ℕ → List ℕ
until_nul [] = []
until_nul (c ∷ cs) = if c == 0 then [] else c ∷ until_nul cs

-- `len` is added to name_len, checked, and then a text is appended.
unfoldable pub append_term : ℕ → List ℕ → Params → Option Params
append_term len s c =
    let n = c.name_len + len in
    if ltb n (max_name_term_len + 1)
    then some (record c { name_len = n; name_term = c.name_term ++ s })
    else none

abbrev pub oper_text : Oper → List ℕ
oper_text and = codes " AND "
oper_text or = codes " OR "
oper_text not = codes " NOT "

-- The statements at a logical node whose string_term flag is given.
unfoldable pub open_term : Bool → Params → Option Params
unfolding append_term
open_term flag c = if flag then append_term 1 (codes "(") c else some c

unfoldable pub oper_term : Oper → Bool → Params → Option Params
unfolding append_term
oper_term op flag c = if flag then append_term (length (oper_text op)) (oper_text op) c else some c

unfoldable pub close_term : Bool → Params → Option Params
unfolding append_term
close_term flag c = if flag then append_term 1 (codes ")") c else some c

-- The switch over the other nodes.
unfoldable pub leaf_term : Leaf → Params → Option Params
unfolding append_term until_nul
leaf_term (string s) c = append_term (length s) (until_nul s) c
leaf_term (extension s) c = some (record c { ext_node = some s })
leaf_term (codec s) c = some (record c { codec_node = some s })
leaf_term (minsize v) c = some (record c { minsize = v })
leaf_term (maxsize v) c = some (record c { maxsize = v })
leaf_term (srcavail v) c = some (record c { srcavail = v })
leaf_term (srccomplete v) c = some (record c { srccomplete = v })
leaf_term (minbitrate v) c = some (record c { minbitrate = v })
leaf_term (minlength v) c = some (record c { minlength = v })
leaf_term (type s) c = some (record c { type_node = some s })
leaf_term empty c = none

-- An ancestor with left_visited only, and its right child; or with both flags.
pub data Visit : Type 0 where
  left_visited : Oper → Bool → Node → Visit
  right_visited : Oper → Bool → Visit

-- Where `snode` is: at a node that was not visited, or back at the nearest ancestor.
pub data Spot : Type 0 where
  at : Node → Spot
  back : Spot

-- A DB_CHECK fails, or the loop goes on.
abbrev pub after : Option Params → (Params → Option (Option Params)) → Option (Option Params)
after none k = some none
after (some c) k = k c

-- while (snode): the outer `none` is the end of the fuel, the inner one `goto failed`.
unfoldable pub walk : ℕ → Spot → List Visit → Params → Option (Option Params)
unfolding open_term oper_term close_term leaf_term
walk zero spot up c = none
walk (suc fuel) (at (branch op flag l r)) up c =
    after (open_term flag c) (λ c'. walk fuel (at l) (left_visited op flag r ∷ up) c')
walk (suc fuel) (at (leaf t)) up c = after (leaf_term t c) (λ c'. walk fuel back up c')
walk (suc fuel) back (left_visited op flag r ∷ up) c =
    after (oper_term op flag c) (λ c'. walk fuel (at r) (right_visited op flag ∷ up) c')
walk (suc fuel) back (right_visited op flag ∷ up) c =
    after (close_term flag c) (λ c'. walk fuel back up c')
walk (suc fuel) back [] c = some (some c)

-- The passes of the loop over a tree: one for a leaf, three for a logical node.
unfoldable pub passes : Node → ℕ
passes (leaf t) = 1
passes (branch op flag l r) = 3 + passes l + passes r
