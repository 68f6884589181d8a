-- ===== src/Common/Names.antt =====
-- Sets of names, as lists of texts with a Boolean membership test.
use Prim.Native.Nat.{ℕ, suc, ◌≤◌, ◌<◌}
use Prim.Native.String.{String}
use mathlib.Core.Path.{◌≡◌, refl}
use mathlib.Core.Bool.{Bool, true, false, ◌||◌}
use mathlib.Core.List.{List, [], ◌∷◌, ◌++◌}
use native.Mathlib.Omega.{arith}
use text.Mathlib.Text.{◌==◌ as str_eq}
use text.Mathlib.TextEquality.{eq_iff}
use fsmc.Common.Lists.{length}
use fsmc.Common.Tests.{if◌then◌else◌}

abbrev pub contains : String → List String → Bool
contains v [] = false
contains v (x ∷ xs) = str_eq x v || contains v xs

pub contains-append :
    (v : String) (xs ys : List String) → contains v (xs ++ ys) ≡ (contains v xs || contains v ys)
contains-append v [] ys = refl
contains-append v (x ∷ xs) ys = ground (arith, contains-append v xs ys)

-- How many entries of a list are not among the names seen.
abbrev pub unseen : List String → List String → ℕ
unseen [] seen = 0
unseen (u ∷ us) seen = if contains u seen then unseen us seen else suc (unseen us seen)

pub unseen-le-length : (us seen : List String) → unseen us seen ≤ length us
unseen-le-length [] seen = omega arith
unseen-le-length (u ∷ us) seen = ground (arith, unseen-le-length us seen)

unseen_mono : (us seen : List String) (v : String) → unseen us (v ∷ seen) ≤ unseen us seen
unseen_mono [] seen v = omega arith
unseen_mono (u ∷ us) seen v = ground (arith, unseen_mono us seen v)

pub unseen-cons :
    (us seen : List String) (v : String)
    → contains v us ≡ true
    → contains v seen ≡ false
    → unseen us (v ∷ seen) < unseen us seen
unseen-cons [] seen v h k = ground arith
unseen-cons (u ∷ us) seen v h k =
    ground (arith, unseen-cons us seen v, unseen_mono us seen v, eq_iff u v, eq_iff v u)

pub unseen-concat :
    (us seen : List String) (v : String) → unseen us (seen ++ v ∷ []) ≡ unseen us (v ∷ seen)
unseen-concat [] seen v = refl
unseen-concat (u ∷ us) seen v =
    ground (arith, unseen-concat us seen v, contains-append u seen (v ∷ []))
