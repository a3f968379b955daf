-- ===== src/Glob.antt =====
-- `glob_match` of src/patch.rs: the pattern language of `fs.write` scopes, ignore sets and URL
-- grants. `**` takes any run of characters, `*` any run without `/`, all else is literal.
pub mod Meaning
pub mod Shapes
use perdure.Prelude.{ℕ, Text, Bool, true, false, not, ◌&&◌, List, [], ◌∷◌, ◌==◌, if◌then◌else◌}

abbrev pub star : ℕ
star = b'*'

abbrev pub slash : ℕ
slash = b'/'

-- `for i in 0..=t.len() { if m(rest, &t[i..]) { return true; } } false`
any_suffix : (Text → Bool) → Text → Bool
any_suffix f [] = f []
any_suffix f (c ∷ t) = let later = any_suffix f t in if f (c ∷ t) then true else later

-- The inner `loop`: it moves on only over a character that is not `/`.
star_loop : (Text → Bool) → Text → Bool
star_loop f [] = f []
star_loop f (c ∷ t) =
    let later = star_loop f t in
    if f (c ∷ t) then true else if not (c == slash) then later else false

literal_step : ℕ → (Text → Bool) → Text → Bool
literal_step c f [] = false
literal_step c f (d ∷ t) = if c == d then f t else false

-- The nested function `m`.
m : Text → Text → Bool
unfolding any_suffix star_loop literal_step
m [] [] = true
m [] (_ ∷ _) = false
m (c ∷ []) t = if c == star then star_loop (m []) t else literal_step c (m []) t
m (c ∷ d ∷ rest) t =
    if c == star
    then (if d == star then any_suffix (m rest) t else star_loop (m (d ∷ rest)) t)
    else literal_step c (m (d ∷ rest)) t

unfoldable pub glob_match : Text → Text → Bool
unfolding m
glob_match pattern path = m pattern path
