-- ===== src/Profile/Graph.antt =====
-- pkg/profile/validation.go: `validateStepGraph` and `watchedSteps`. The decoder of a service
-- step's config is a parameter: it gives the `steps` of a restart policy, if there is one.
pub mod Spec
pub mod Sound
pub mod Watches
use hardline.Base.{
  ℕ, suc, ◌+◌, Text, codes, ◌==◌, Bool, true, false, not, Option, none, some, List, [], ◌∷◌, ◌++◌,
  Result, ok, err, ◌>>=◌, ◌>>◌, if◌then◌else◌, is_nil, trim_space, Map, lookup, put, ltb, map,
}
use hardline.Pluginapi.Host.{Fault}
use hardline.Pluginapi.Registry.{Step, ActionFile, plugin_name}

pub data GraphError : Type 0 where
  empty_id : Text → GraphError
  padded_id duplicate_id : Text → Text → GraphError
  undecodable : Text → Fault → GraphError
  empty_dep : Text → GraphError
  padded_dep watches_unknown watches_later : Text → Text → GraphError
  watches_itself : Text → GraphError

-- The positions of the steps by id, and the number of steps so far.
pub record Positions : Type 0 where
  pub position : Map ℕ
  pub order : ℕ

-- One round of the first loop, in the action file at `path`.
unfoldable pub place_id : Text → Text → Positions → Result GraphError Positions
place_id path id p =
    if is_nil (trim_space id)
    then err (empty_id path)
    else if not (trim_space id == id)
    then err (padded_id path id)
    else elim (lookup (trim_space id) p.position) [
      | some n ↦ err (duplicate_id path (trim_space id))
      | none ↦
          ok (record { position = put (trim_space id) p.order p.position; order = p.order + 1 })
    ]

-- The checks of one watched id inside `watchedSteps`.
unfoldable pub check_deps : Text → List Text → Result GraphError (List Text)
check_deps id [] = ok []
check_deps id (dep ∷ rest) =
    let tail = check_deps id rest in
    if is_nil (trim_space dep)
    then err (empty_dep id)
    else if not (trim_space dep == dep)
    then err (padded_dep id dep)
    else (tail >>= λ out. ok (dep ∷ out))

-- One round of the loop over the watched ids of the step `id` at position `order`.
unfoldable pub check_watch : Map ℕ → ℕ → Text → Text → Result GraphError (Unit {0})
check_watch position order id dep =
    if dep == id then err (watches_itself id) else elim (lookup dep position) [
      | none ↦ err (watches_unknown id dep)
      | some n ↦ if ltb order n then err (watches_later id dep) else ok tt
    ]

unfoldable pub check_watches : Map ℕ → ℕ → Text → List Text → Result GraphError (Unit {0})
check_watches position order id [] = ok tt
check_watches position order id (dep ∷ rest) =
    check_watch position order id dep >> check_watches position order id rest

module _ {C : Type 0} where
  unfoldable pub place_steps : Text → List (Step C) → Positions → Result GraphError Positions
  place_steps path [] p = ok p
  place_steps path (s ∷ rest) p = place_id path s.id p >>= place_steps path rest

  unfoldable pub place_files : List (ActionFile C) → Positions → Result GraphError Positions
  place_files [] p = ok p
  place_files (af ∷ rest) p = place_steps af.path af.steps p >>= place_files rest

module _ {C : Type 0} (decode : C → Result Fault (Option (List Text))) where
  abbrev pub watched_of : Text → Result Fault (Option (List Text)) → Result GraphError (List Text)
  watched_of id (err f) = err (undecodable id f)
  watched_of id (ok none) = ok []
  watched_of id (ok (some deps)) = check_deps id deps

  unfoldable pub watched_steps : Step C → Result GraphError (List Text)
  watched_steps s =
      if plugin_name s == codes "service" then watched_of s.id (decode s.config) else ok []

  -- The second loops, from the step at position `order`; they give the position behind the last.
  unfoldable pub watch_steps : Map ℕ → List (Step C) → ℕ → Result GraphError ℕ
  watch_steps position [] order = ok order
  watch_steps position (s ∷ rest) order = do
    deps ← watched_steps s
    check_watches position order s.id deps
    watch_steps position rest (order + 1)

  unfoldable pub watch_files : Map ℕ → List (ActionFile C) → ℕ → Result GraphError ℕ
  watch_files position [] order = ok order
  watch_files position (af ∷ rest) order =
      watch_steps position af.steps order >>= watch_files position rest

  unfoldable pub validate_step_graph : List (ActionFile C) → Result GraphError (Unit {0})
  validate_step_graph files = do
    p ← place_files files (record { position = []; order = 0 })
    watch_files p.position files 0
    ok tt
