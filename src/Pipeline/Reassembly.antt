-- ===== src/Pipeline/Reassembly.antt =====
-- From the chunks of a browser capture to the file that the pipeline gives to ffmpeg.
use meeting_mgr.Base.{ℕ, ◌≡◌, refl, ap, ◌∙◌, subst, some, List, [], ◌∷◌, ◌++◌, All}
use meeting_mgr.Base.Text.{Text, starts_with, remove_prefix}
use meeting_mgr.Models.{Account}
use meeting_mgr.Db.State.{Body, World, blob, json, no_such_key, ok}
use meeting_mgr.Db.Action.{pure, ◌>>=◌, or_raise, service_call}
use meeting_mgr.Db.Laws.{after, calm}
use meeting_mgr.Storage.{lookup, get_object}
use meeting_mgr.Capture.{manifest_key, manifest_ref, finish_commit, done}
use meeting_mgr.Capture.Finish.{done_is_committed, committed_manifest}
use meeting_mgr.Pipeline.Stages.{
  bytes_of, get_bytes, append_chunks, manifest_list, write_manifest_chunks, fetch_raw,
}

-- The chunks' bytes, one after another.
abbrev pub joined : (Text → List ℕ) → List Text → List ℕ
joined data_of [] = []
joined data_of (k ∷ ks) = data_of k ++ joined data_of ks

get_object-calm :
    (key : Text) (w : World) (body : Body)
    → lookup key w.objects ≡ some body
    → get_object key (calm w) ≡ (ok body, calm w)
unfolding get_object service_call
get_object-calm key w body h = ap (λ found. or_raise found no_such_key (calm w)) h

get_bytes-calm :
    (key : Text) (w : World) (bytes : List ℕ)
    → lookup key w.objects ≡ some (blob bytes)
    → get_bytes key (calm w) ≡ (ok bytes, calm w)
unfolding get_bytes
get_bytes-calm key w bytes h = ap (λ r. after r bytes_of) (get_object-calm key w (blob bytes) h)

append_chunks-calm :
    (data_of : Text → List ℕ) (keys : List Text) (w : World)
    → All (λ k. lookup k w.objects ≡ some (blob (data_of k))) keys
    → append_chunks keys (calm w) ≡ (ok (joined data_of keys), calm w)
unfolding append_chunks
append_chunks-calm data_of [] w h = refl
append_chunks-calm data_of (k ∷ ks) w h =
    ap (λ r. after r (λ bytes. append_chunks ks >>= λ rest. pure (bytes ++ rest)))
      (get_bytes-calm k w (data_of k) h.0)
    ∙ ap (λ r. after r (λ rest. pure (data_of k ++ rest))) (append_chunks-calm data_of ks w h.1)

manifest_calm :
    (data_of : Text → List ℕ) (key : Text) (keys : List Text) (w : World)
    → lookup key w.objects ≡ some (json keys)
    → All (λ k. lookup k w.objects ≡ some (blob (data_of k))) keys
    → write_manifest_chunks key (calm w) ≡ (ok (joined data_of keys), calm w)
unfolding write_manifest_chunks
manifest_calm data_of key keys w h hs =
    ap (λ r. after r (λ body. manifest_list body >>= append_chunks))
      (get_object-calm key w (json keys) h)
    ∙ append_chunks-calm data_of keys w hs

fetch_raw-manifest_ref :
    (key : Text) (w : World) → fetch_raw (manifest_ref key) w ≡ write_manifest_chunks key w
unfolding fetch_raw starts_with remove_prefix
fetch_raw-manifest_ref key w = refl

-- After a finish that reports success, and while the storage holds its chunks and does not fail,
-- the file that the pipeline makes of the new Recording's raw key is the bytes of the chunks of the
-- snapshot, one after another in its order.
pub finished_is_reassembled :
    (mid : ℕ) (a : Account) (keys : List Text) (data_of : Text → List ℕ) (w w' : World)
    → finish_commit mid a keys w ≡ (ok done, w')
    → All (λ k. lookup k w'.objects ≡ some (blob (data_of k))) keys
    → fetch_raw (manifest_ref (manifest_key mid)) (calm w') ≡ (ok (joined data_of keys), calm w')
finished_is_reassembled mid a keys data_of w w' h hs =
    fetch_raw-manifest_ref (manifest_key mid) (calm w')
    ∙ manifest_calm data_of (manifest_key mid) keys w'
        (subst (λ v. lookup (manifest_key mid) v.objects ≡ some (json keys))
          (done_is_committed mid a keys w w' h) (committed_manifest a.organization_id mid keys w))
        hs
