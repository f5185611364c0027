-- ===== src/Strings.antt =====
-- The functions of Go's strings package that the source uses, over bytes.
use weiyeston.Base.{
  ◌≡◌, refl, Bool, true, false, ◌&&◌, [], ◌∷◌, ◌++◌, Text, arith, nat_beq, if◌then◌else◌,
  nat_beq_iff,
}

unfoldable pub has_prefix : Text → Text → Bool
has_prefix [] s = true
has_prefix (c ∷ p) [] = false
has_prefix (c ∷ p) (d ∷ s) = nat_beq c d && has_prefix p s

drop_prefix : Text → Text → Text
drop_prefix [] s = s
drop_prefix (c ∷ p) [] = []
drop_prefix (c ∷ p) (d ∷ s) = drop_prefix p s

-- The text without the prefix, or the text itself if it does not start so.
unfoldable pub trim_prefix : Text → Text → Text
unfolding has_prefix drop_prefix
trim_prefix p s = if has_prefix p s then drop_prefix p s else s

append-drop_prefix : (p s : Text) → has_prefix p s ≡ true → p ++ drop_prefix p s ≡ s
unfolding has_prefix drop_prefix
append-drop_prefix [] s h = refl
append-drop_prefix (c ∷ p) [] h = ground arith
append-drop_prefix (c ∷ p) (d ∷ s) h = ground (arith, nat_beq_iff c d, append-drop_prefix p s)

-- A text with the prefix is the prefix and what trim_prefix leaves.
pub append-trim_prefix : (p s : Text) → has_prefix p s ≡ true → p ++ trim_prefix p s ≡ s
unfolding trim_prefix
append-trim_prefix p s h = rw h (append-drop_prefix p s h)

pub has_prefix-append : (p s : Text) → has_prefix p (p ++ s) ≡ true
unfolding has_prefix
has_prefix-append [] s = refl
has_prefix-append (c ∷ p) s = ground (arith, nat_beq_iff c c, has_prefix-append p s)

drop_prefix-append : (p s : Text) → drop_prefix p (p ++ s) ≡ s
unfolding drop_prefix
drop_prefix-append [] s = refl
drop_prefix-append (c ∷ p) s = drop_prefix-append p s

pub trim_prefix-append : (p s : Text) → trim_prefix p (p ++ s) ≡ s
unfolding trim_prefix
trim_prefix-append p s = rw (has_prefix-append p s) (drop_prefix-append p s)
