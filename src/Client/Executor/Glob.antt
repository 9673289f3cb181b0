-- ===== src/Client/Executor/Glob.antt =====
-- The matching of paths in internal/akira-client/executor/executor.go, and the walk of globTask.
-- path.Match on one segment is an argument, `segment`: false also where it reports a bad pattern.
-- Brace expansion comes before, and is not part of this.
use akira_mcp.Base.{ℕ, Bool, false, ◌||◌, List, [], ◌∷◌, ◌==◌, list_eq, nat_eq, if◌then◌else◌}
use akira_mcp.Base.Text.{Text}

abbrev pub any_depth : Text
any_depth = b'*' ∷ b'*' ∷ []

-- Some tail of the list satisfies the test.
abbrev pub any_tail : (List Text → Bool) → List Text → Bool
any_tail f [] = f []
any_tail f (s ∷ seg) = f (s ∷ seg) || any_tail f seg

abbrev pub onto_first : ℕ → List Text → List Text
onto_first c [] = (c ∷ []) ∷ []
onto_first c (s ∷ ss) = (c ∷ s) ∷ ss

-- strings.Split(s, "/"): the segments; there always is one.
unfoldable pub split_slash : Text → List Text
split_slash [] = [] ∷ []
split_slash (c ∷ s) = let rest = split_slash s in if c == b'/' then [] ∷ rest else onto_first c rest

module _ (segment : Text → Text → Bool) where
  abbrev pub match_first : Text → (List Text → Bool) → List Text → Bool
  match_first p more [] = false
  match_first p more (s ∷ seg) = if segment p s then more seg else false

  -- matchSegments
  unfoldable pub match_segments : List Text → List Text → Bool
  match_segments [] seg = seg == []
  match_segments (p ∷ pat) seg =
      if p == any_depth
      then any_tail (match_segments pat) seg
      else match_first p (match_segments pat) seg

  -- matchGlob
  unfoldable pub match_glob : Text → Text → Bool
  unfolding match_segments split_slash
  match_glob pattern rel = match_segments (split_slash pattern) (split_slash rel)

  -- matchAnyGlob
  unfoldable pub match_any_glob : List Text → Text → Bool
  unfolding match_glob
  match_any_glob [] rel = false
  match_any_glob (p ∷ ps) rel = match_glob p rel || match_any_glob ps rel
