-- ===== src/Tests/Path.antt =====
-- The theorems on parsePath at concrete inputs.
use cave.Base.{arith, ◌≡◌, refl, true, [], ◌∷◌, Bytes, codes, length, take, ◌-◌}
use cave.Path.{slash, split, has_suffix, parse_path}
use cave.Path.Laws.{
  join_path, last_of, parse_path-segments, parse_path-join_path, parse_path-has_suffix,
}

abbrev path : Bytes
path = codes "a/b"

parse_path-segments_example :
    parse_path path
    ≡ (take (length (split slash path) - 1) (split slash path), last_of (split slash path))
parse_path-segments_example = parse_path-segments path

parse_path-join_path_example :
    parse_path (join_path (codes "a" ∷ []) (codes "b")) ≡ (codes "a" ∷ [], codes "b")
parse_path-join_path_example =
    parse_path-join_path (codes "a" ∷ []) (codes "b") (((λ e. omega arith), tt), tt)
      ((λ e. omega arith), tt)

ends_in_slash : has_suffix slash (codes "a/") ≡ true
unfolding has_suffix
ends_in_slash = refl

parse_path-has_suffix_example : (parse_path (codes "a/")).1 ≡ []
parse_path-has_suffix_example = parse_path-has_suffix (codes "a/") ends_in_slash
