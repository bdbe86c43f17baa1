-- ===== src/Amount/Trim.antt =====
-- `trim` on a key file's line.
use lyth_mcp.Prelude.{◌≡◌, refl, ap, true, false, [], ◌∷◌, ◌++◌, All}
use lyth_mcp.Amount.{Text, is_space, trim_start, trim_end, trim}

abbrev pub HasNoSpace : Text → Type 0
HasNoSpace s = All (λ c. is_space c ≡ false) s

is_space-line_feed : is_space 10 ≡ true
unfolding is_space
is_space-line_feed = refl

trim_end-line : (s : Text) → HasNoSpace s → trim_end (s ++ 10 ∷ []) ≡ s
unfolding trim_end
trim_end-line [] h = rw is_space-line_feed refl
trim_end-line (c ∷ s) h = rw h.0 (ap (λ t. c ∷ t) (trim_end-line s h.1))

trim_start-line : (s : Text) → HasNoSpace s → trim_end (trim_start (s ++ 10 ∷ [])) ≡ s
unfolding trim_start trim_end
trim_start-line [] h = rw is_space-line_feed refl
trim_start-line (c ∷ s) h = rw h.0 (trim_end-line (c ∷ s) h)

pub trim-line : (s : Text) → HasNoSpace s → trim (s ++ 10 ∷ []) ≡ s
unfolding trim
trim-line s h = trim_start-line s h
