-- ===== src/Storage.antt =====
-- src/meeting_mgr/storage.py: object storage under keys. Each call goes over the network, so it takes
-- one of the environment's choices and may fail.
pub mod Calls
use meeting_mgr.Base.{
  ℕ, ◌≡◌, refl, not, Option, none, some, List, [], ◌∷◌, map, arith, if◌then◌else◌, filter,
}
use meeting_mgr.Base.Text.{Text, text_eq, starts_with, text_eq_iff}
use meeting_mgr.Db.State.{Body, blob, client_error, no_such_key, ok}
use meeting_mgr.Db.Action.{Action, gets, ◌>>=◌, ◌>>◌, or_raise, service_call}

abbrev pub Objects : Type 0
Objects = List (Text × Body)

-- The objects that have another key.
unfoldable pub without : Text → Objects → Objects
unfolding text_eq
without k objects = filter (λ o. not (text_eq o.0 k)) objects

unfoldable pub lookup : Text → Objects → Option Body
unfolding text_eq
lookup k [] = none
lookup k ((j, b) ∷ objects) = if text_eq j k then some b else lookup k objects

-- Whether the bucket is there is one call; the process's memory of the answer is left out.
unfoldable pub ensure_bucket : Action (Unit {0})
unfolding service_call
ensure_bucket = service_call client_error

-- A put at a key that is there replaces the object.
unfoldable pub put_object : Text → Body → Action (Unit {0})
unfolding service_call without
put_object key body = do
  service_call client_error
  λ w. (ok tt, record w { objects = (key, body) ∷ without key w.objects })

-- The stream's bytes, whole.
unfoldable pub put_stream : Text → List ℕ → Action (Unit {0})
unfolding put_object
put_stream key bytes = put_object key (blob bytes)

unfoldable pub get_object : Text → Action Body
unfolding service_call lookup
get_object key = do
  service_call client_error
  found ← gets (λ w. lookup key w.objects)
  or_raise found no_such_key

-- A delete of a key that is not there is no error.
unfoldable pub delete_object : Text → Action (Unit {0})
unfolding service_call without
delete_object key = do
  service_call client_error
  λ w. (ok tt, record w { objects = without key w.objects })

-- The pages of the listing, taken as one call.
unfoldable pub list_keys : Text → Action (List Text)
unfolding service_call starts_with
list_keys prefix = do
  service_call client_error
  gets (λ w. filter (starts_with prefix) (map (λ o. o.0) w.objects))

pub lookup-without :
    (j k : Text) (o : Objects) → lookup j (without k o) ≡ (if text_eq k j then none else lookup j o)
unfolding lookup without
lookup-without j k [] = ground arith
lookup-without j k ((i, b) ∷ o) =
    ground (arith, lookup-without j k o, text_eq_iff i k, text_eq_iff i j, text_eq_iff k j)

pub without-without : (k : Text) (o : Objects) → without k (without k o) ≡ without k o
unfolding without
without-without k [] = refl
without-without k (x ∷ o) = ground (arith, without-without k o)

pub without_comm : (j k : Text) (o : Objects) → without j (without k o) ≡ without k (without j o)
unfolding without
without_comm j k [] = refl
without_comm j k (x ∷ o) = ground (arith, without_comm j k o)
