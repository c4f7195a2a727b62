-- ===== src/Search/Nodes.antt =====
-- src/server.c, process_search_request: what reading one node of a search costs.
use ed2kd.Base.{
  ℕ, ◌+◌, ◌≤◌, ◌≡◌, ◌≢◌, refl, Bool, true, false, ◌==◌, ◌||◌, arith, leb, if◌then◌else◌, inl, inr,
  load16, leb→le, Bool-cases,
}
use mathlib.Core.Path.{subst}
use ed2kd.Wire.{P, Out, go, malformed, ◌>>=◌, ◌>>◌, pure, seek}
use ed2kd.Wire.Locality.{Out-cases}
use ed2kd.Wire.Advance.{Advances, advance}
use ed2kd.Search.{
  text, string_leaf, constr_leaf, int_leaf, read64, Item, logical, term, Oper, and, or, not, Leaf,
  read_node,
}

text_adv : (m : ℕ → ℕ) (e : ℕ) → Advances (text m e)
unfolding text
text_adv m e = search advance depth 9

string_adv : (m : ℕ → ℕ) (e : ℕ) → Advances (string_leaf m e)
unfolding string_leaf
string_adv m e = search (advance, text_adv) depth 9

constr_adv : (m : ℕ → ℕ) (e : ℕ) → Advances (constr_leaf m e)
unfolding constr_leaf
constr_adv m e = search (advance, text_adv) depth 12

read64_adv : (m : ℕ → ℕ) (e : ℕ) → Advances (read64 m e)
unfolding read64
read64_adv m e = search advance depth 9

int_adv : (m : ℕ → ℕ) (e : ℕ) → Advances (int_leaf m e)
unfolding int_leaf
int_adv m e = search (advance, read64_adv) depth 14

-- A handler that never gives an operator.
record Leafy (f : P (Unit {0}) Item) : Type 0 where
  leafy :
      (p : ℕ) (s : Unit {0}) (p' : ℕ) (s' : Unit {0}) (op : Oper) → f p s ≢ go p' s' (logical op)

Leafy->>= :
    {A : Type 0} (f : P (Unit {0}) A) (g : A → P (Unit {0}) Item)
    → ((a : A) → Leafy (g a))
    → Leafy (f >>= g)
Leafy->>= f g hg = record {
  leafy = λ p s p' s' op h. elim (Out-cases (f p s)) [
    | inl (q, t, a, eq) ↦ (hg a).leafy q t p' s' op (rw (eq, ◌>>=◌) at h)
    | inr (t, eq) ↦ cc (rw (eq, ◌>>=◌) at h)
  ];
}

Leafy-if : (b : Bool) (f g : P (Unit {0}) Item) → Leafy f → Leafy g → Leafy (if b then f else g)
Leafy-if true f g hf hg = hf
Leafy-if false f g hf hg = hg

Leafy-term : (t : Leaf) → Leafy (pure (term t))
Leafy-term t = record { leafy = λ p s p' s' op h. cc }

string-Leafy : (m : ℕ → ℕ) (e : ℕ) → Leafy (string_leaf m e)
unfolding string_leaf
string-Leafy m e = search (Leafy->>=, Leafy-term) depth 9

constr-Leafy : (m : ℕ → ℕ) (e : ℕ) → Leafy (constr_leaf m e)
unfolding constr_leaf
constr-Leafy m e = search (Leafy->>=, Leafy-if, Leafy-term) depth 12

int-Leafy : (m : ℕ → ℕ) (e : ℕ) → Leafy (int_leaf m e)
unfolding int_leaf
int-Leafy m e = search (Leafy->>=, Leafy-if, Leafy-term) depth 14

-- What reading a node costs.
abbrev pub Pays : ℕ → Item → ℕ → ℕ → Type 0
Pays e (logical op) p p' = (p' ≡ p + 2) × (p' ≤ e)
Pays e (term t) p p' = p ≤ p'

abbrev pub PaysOut : ℕ → ℕ → Out (Unit {0}) Item → Type 0
PaysOut e p (go p' s it) = Pays e it p p'
PaysOut e p (malformed s) = Unit

pays_leaf :
    (e : ℕ) (f : P (Unit {0}) Item)
    → Advances f
    → Leafy f
    → (p : ℕ) (s : Unit {0}) (o : Out (Unit {0}) Item) → f p s ≡ o
    → PaysOut e p o
pays_leaf e f ha hl p s (malformed s') h = tt
pays_leaf e f ha hl p s (go p' s' (logical op)) h = absurd (hl.leafy p s p' s' op h)
pays_leaf e f ha hl p s (go p' s' (term t)) h = ha.adv p s p' s' (term t) h

pays_op : (e p : ℕ) (op : Oper) → PaysOut e p ((seek e 2 >> pure (logical op)) p tt)
unfolding seek
pays_op e p op = elim (Bool-cases (leb (p + 2) e)) [
  | inl b ↦ rw (b, ◌>>◌, PaysOut) (refl, leb→le (p + 2) e b)
  | inr b ↦ rw (b, ◌>>◌, PaysOut) tt
]

pays_if :
    (e p : ℕ) (b : Bool) (f g : Unit {0} → Out (Unit {0}) Item)
    → PaysOut e p (f tt)
    → PaysOut e p (g tt)
    → PaysOut e p ((if b then f else g) tt)
pays_if e p true f g h h' = h
pays_if e p false f g h h' = h'

read_node_pays : (m : ℕ → ℕ) (e p : ℕ) → PaysOut e p (read_node m e p tt)
unfolding read_node
read_node_pays m e p = pays_if e p (0x0000 == load16 m p) _ _ (pays_op e p and) (
    pays_if e p (0x0100 == load16 m p) _ _ (pays_op e p or) (
      pays_if e p (0x0200 == load16 m p) _ _ (pays_op e p not) (
        pays_if e p (0x01 == m p) _ _
          (pays_leaf e _ (string_adv m e) (string-Leafy m e) p tt _ refl)
          (pays_if e p (0x02 == m p) _ _
            (pays_leaf e _ (constr_adv m e) (constr-Leafy m e) p tt _ refl)
            (pays_if e p (0x03 == m p || 0x08 == m p) _ _
              (pays_leaf e _ (int_adv m e) (int-Leafy m e) p tt _ refl) (omega arith))))))

pub read_node_paid :
    (m : ℕ → ℕ) (e p : ℕ) (o : Out (Unit {0}) Item) → read_node m e p tt ≡ o → PaysOut e p o
read_node_paid m e p o h = subst (PaysOut e p) h (read_node_pays m e p)
