-- ===== src/Matcher/Index/Calls.antt =====
-- The map from ids to calls agrees with the arena.
use rootcause.Prelude.{
  ℕ, zero, suc, ◌+◌, ◌<◌, ◌≡◌, refl, some, List, [], ◌∷◌, nat_Eq, lookup, get_elem?, arith,
}
use rootcause.Facts.Types.{CallId, Call}
use rootcause.Facts.Arena.{call}
use rootcause.Facts.Arena.Ids.{IdsFrom}
use rootcause.Facts.Trace.{Trace}
use rootcause.Matcher.Index.{collect_calls, build_index, index_call}

lookup-collect_calls_below :
    (k : ℕ) (cs : List Call) (m : List (CallId × Call)) (i : CallId)
    → IdsFrom k cs
    → i < k
    → lookup i (collect_calls cs m) ≡ lookup i m
unfolding collect_calls
lookup-collect_calls_below k [] m i ids h = refl
lookup-collect_calls_below k (c ∷ cs) m i (here, ids) h =
    ground (arith, lookup-collect_calls_below (suc k) cs ((c.id, c) ∷ m) i ids (omega arith))

pub lookup-collect_calls :
    (k : ℕ) (cs : List Call) (m : List (CallId × Call)) (j : ℕ) (c : Call)
    → IdsFrom k cs
    → get_elem? cs j ≡ some c
    → lookup (k + j) (collect_calls cs m) ≡ some c
unfolding collect_calls
lookup-collect_calls k [] m j c ids h = absurd (cc)
lookup-collect_calls k (d ∷ cs) m zero c (here, ids) h =
    ground (arith, lookup-collect_calls_below (suc k) cs ((d.id, d) ∷ m) (k + 0) ids (omega arith))
lookup-collect_calls k (d ∷ cs) m (suc j) c (here, ids) h =
    ground (arith, lookup-collect_calls (suc k) cs ((d.id, d) ∷ m) j c ids h)

-- Where the ids of an arena's calls are their positions, the index finds every call of the arena
-- under its position.
pub index_call-eq-call :
    (t : Trace) (id : CallId) (c : Call)
    → IdsFrom 0 t.arena.calls
    → call t.arena id ≡ some c
    → index_call (build_index t) id ≡ some c
unfolding call index_call build_index
index_call-eq-call t id c ids h =
    let found = lookup-collect_calls 0 t.arena.calls [] id c ids h in
    let same : 0 + id ≡ id = omega arith in rw same at found
