-- ===== src/Gauges.antt =====
-- The vectors of gauges that plugins.go and kv.go set, as the calls they make of the Prometheus client.
use cave.Base.{ℕ, suc, ◌≡◌, refl, List, [], ◌∷◌, Bytes, path_eqb, if◌then◌else◌}

-- The values set for the labels, the last one first. A value is a float64, of which only whole numbers
-- that it holds exactly are set.
abbrev pub Series : Type 0
Series = List (List Bytes × ℕ)

-- WithLabelValues(labels).Set(v)
abbrev pub set_value : List Bytes → ℕ → Series → Series
set_value l v s = (l, v) ∷ s

-- What a gauge shows, which is the value set last, and 0 before that.
unfoldable pub value_of : List Bytes → Series → ℕ
value_of l [] = 0
value_of l ((k, w) ∷ s) = if path_eqb k l then w else value_of l s

-- WithLabelValues(labels).Inc()
abbrev pub increase : List Bytes → Series → Series
increase l s = set_value l (suc (value_of l s)) s

pub value_of-set_value :
    (l k : List Bytes) (v : ℕ) (s : Series)
    → value_of k (set_value l v s) ≡ (if path_eqb l k then v else value_of k s)
unfolding value_of
value_of-set_value l k v s = refl
