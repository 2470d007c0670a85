-- ===== src/Js/Laws.antt =====
-- What the tests on JavaScript values mean.
use kakesu.Prelude.{String, true, false, ◌≡◌, refl, arith, eq_iff, eq_refl}
use kakesu.Js.{pos, negsuc, Value, undefined, null, bool, num, str, strict_eq}

pub strict_eq_sound : (v w : Value) → strict_eq v w ≡ true → v ≡ w
unfolding strict_eq
strict_eq_sound undefined undefined h = refl
strict_eq_sound null null h = refl
strict_eq_sound (bool true) (bool true) h = refl
strict_eq_sound (bool false) (bool false) h = refl
strict_eq_sound (num (pos a)) (num (pos b)) h = ground arith
strict_eq_sound (num (negsuc a)) (num (negsuc b)) h = ground arith
strict_eq_sound (str s) (str t) h = ground (arith, eq_iff s t)
strict_eq_sound v w h = cc

pub strict_eq-str_self : (s : String) → strict_eq (str s) (str s) ≡ true
unfolding strict_eq
strict_eq-str_self s = eq_refl s
