-- ===== src/Identifiers.antt =====
-- internal/identifiers/validate.go: the names of clusters, shards, tenants, groups and subnet pools.
use Prim.Native.Char.{Char, code}
use Prim.Native.String.{len, [], ◌∷◌}
use nstance.Base.{ℕ, String, Bool, true, false, ◌&&◌, ◌||◌, ◌==◌, if◌then◌else◌, leb, ltb, nat_eq}

-- [a-z0-9]
abbrev pub is_lower_or_digit : Char → Bool
is_lower_or_digit c = (leb 97 (code c) && leb (code c) 122) || (leb 48 (code c) && leb (code c) 57)

abbrev pub is_hyphen : Char → Bool
is_hyphen c = nat_eq (code c) 45

-- The rest of a text that matches `^[a-z0-9]+(?:-[a-z0-9]+)*$`, after such a character or not.
unfoldable pub matches_after : Bool → String → Bool
matches_after after [] = after
matches_after after (c ∷ s) =
    let more = matches_after true s in
    let next_word = matches_after false s in
    if is_lower_or_digit c then more else if is_hyphen c && after then next_word else false

abbrev pub validate_max_length : ℕ
validate_max_length = 32

-- `Validate`; its errors differ in their texts only.
unfoldable pub validate : String → Bool
unfolding matches_after
validate value =
    if value == ""
    then false
    else if ltb validate_max_length (len value)
    then false
    else matches_after false value
