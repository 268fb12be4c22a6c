-- ===== src/EndToEnd/Outputs.antt =====
-- The lines that are read from a command's output, and the directory that commands are run in.
use mathlib.Core.List.{append-nil}
use kube_drift.Common.{
  ◌≡◌, refl, ap, ◌∙◌, false, none, List, [], ◌∷◌, ◌++◌, Text, All, IsOneLine, lines, lines-append,
  has_prefix,
}
use kube_drift.EndToEnd.{
  Shell, replace_from, replace_all, non_empty, get_non_empty_lines, e2e_dir, get_project_dir,
  stripped,
}

-- Each line with its end.
abbrev pub printed : List Text → Text
printed [] = []
printed (l ∷ ls) = l ++ 10 ∷ printed ls

-- The lines that are not empty are read back from what printed them, whatever empty ones stand among
-- them. No line has a newline.
pub get_non_empty_lines-printed :
    (ls : List Text) → All IsOneLine ls → get_non_empty_lines (printed ls) ≡ non_empty ls
unfolding get_non_empty_lines non_empty lines
get_non_empty_lines-printed [] h = refl
get_non_empty_lines-printed ([] ∷ ls) (single, more) =
    ap non_empty (lines-append [] (printed ls) single) ∙ get_non_empty_lines-printed ls more
get_non_empty_lines-printed ((c ∷ l) ∷ ls) (single, more) =
    ap non_empty (lines-append (c ∷ l) (printed ls) single)
    ∙ ap (λ rest. (c ∷ l) ∷ rest) (get_non_empty_lines-printed ls more)

-- No occurrence of a text begins within the first one, if the second one follows.
abbrev pub IsFreeOf : Text → Text → Text → Type 0
IsFreeOf old [] after = Unit
IsFreeOf old (c ∷ s) after = (has_prefix (c ∷ s ++ after) old ≡ false) × IsFreeOf old s after

replace_from-free :
    (s after old new : Text)
    → IsFreeOf old s after
    → replace_from 0 (s ++ after) old new ≡ s ++ replace_from 0 after old new
unfolding replace_from
replace_from-free [] after old new h = refl
replace_from-free (c ∷ s) after old new (differs, more) =
    rw (differs, replace_from-free s after old new more) refl

-- In the directory of the tests the project is what that stands in, if no other occurrence of
-- "/test/e2e" begins in the path.
pub get_project_dir-within :
    {S : Type 0} (sh : Shell S) (s s' : S) (root : Text)
    → IsFreeOf e2e_dir root e2e_dir
    → sh.getwd s ≡ ((root ++ e2e_dir, none), s')
    → get_project_dir sh s ≡ ((root, none), s')
unfolding get_project_dir stripped replace_all replace_from has_prefix
get_project_dir-within sh s s' root free at =
    let rest = replace_from-free root e2e_dir e2e_dir [] free in
    let whole : replace_all (root ++ e2e_dir) e2e_dir [] ≡ root = rest ∙ append-nil root in
    ap (λ r. (stripped r.0, r.1)) at ∙ ap (λ dir. ((dir, none), s')) whole

-- Without an occurrence, it is the working directory.
pub get_project_dir-outside :
    {S : Type 0} (sh : Shell S) (s s' : S) (wd : Text)
    → IsFreeOf e2e_dir wd []
    → sh.getwd s ≡ ((wd, none), s')
    → get_project_dir sh s ≡ ((wd, none), s')
unfolding get_project_dir stripped replace_all replace_from
get_project_dir-outside sh s s' wd free at =
    let whole = rw append-nil at (replace_from-free wd [] e2e_dir [] free) in
    ap (λ r. (stripped r.0, r.1)) at ∙ ap (λ dir. ((dir, none), s')) whole
