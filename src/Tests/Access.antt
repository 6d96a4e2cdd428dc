-- ===== src/Tests/Access.antt =====
-- A Meeting that was shared and is private again, and the keys of chunks.
use mathlib.Core.List.{Perm}
use meeting_mgr.Base.{◌≡◌, refl, ◌≢◌, ◌↔◌, true, false, some, List, [], ◌∷◌}
use meeting_mgr.Base.Text.{Text, codes}
use meeting_mgr.Base.Decimal.{int_of, pos}
use meeting_mgr.Models.{Account, Meeting, member, auditor, organization, published}
use meeting_mgr.Db.State.{Db, World, ok}
use meeting_mgr.Db.Session.{sees_meeting, tenant}
use meeting_mgr.Tests.Samples.{sample_account, sample_meeting, empty_db, sample_world}
use meeting_mgr.Authz.{can_read, readable_meetings_filter, authorize}
use meeting_mgr.Authz.Laws.{MayRead, authorize_decides}
use meeting_mgr.Authz.Filter.{filter-eq-can_read, private_share_diverges}
use meeting_mgr.ChunkStorage.{chunk_prefix, chunk_key, chunk_seq, sorted_keys}
use meeting_mgr.ChunkStorage.RoundTrip.{chunk_seq-chunk_key, chunk_key_injective}
use meeting_mgr.ChunkStorage.Order.{InSeqOrder, sorted_keys_ordered}

abbrev outsider : Account
outsider = sample_account 3 member

abbrev unshared : Meeting
unshared = sample_meeting 7 published

abbrev open_to_all : Meeting
open_to_all = record unshared { visibility = organization }

abbrev access_db : Db
access_db = record empty_db {
  meetings = unshared ∷ [];
  shares = record { id = 40; meeting_id = 7; account_id = 3 } ∷ [];
}

abbrev access_world : World
access_world = sample_world access_db [] []

authorize_decides_example :
    (authorize (sample_account 2 member) (some unshared) (tenant 1) true access_world
      ≡ (ok tt, access_world))
    ↔ ((unshared.organization_id ≡ outsider.organization_id)
        × MayRead (sample_account 2 member) unshared (tenant 1) access_db
        × (true ≡ true → member ≢ auditor))
authorize_decides_example =
    authorize_decides (sample_account 2 member) unshared (tenant 1) true access_world

abbrev foreign : Meeting
foreign = record unshared { organization_id = 2 }

filter-eq-can_read_example :
    readable_meetings_filter outsider (tenant 1) access_db open_to_all
    ≡ can_read outsider open_to_all (tenant 1) access_db
filter-eq-can_read_example =
    filter-eq-can_read outsider open_to_all (tenant 1) access_db (λ e. cc e)

private_share_diverges_example :
    (can_read outsider unshared (tenant 1) access_db ≡ false)
    × (readable_meetings_filter outsider (tenant 1) access_db unshared ≡ true)
unfolding sees_meeting
private_share_diverges_example =
    private_share_diverges outsider unshared (tenant 1) access_db refl refl (λ e. cc e) refl

chunk_seq-chunk_key_example :
    chunk_seq
      (chunk_prefix 7 (codes "chunks"))
      (codes ".webm")
      (chunk_key 7 (pos 12) (codes "chunks") (codes ".webm"))
    ≡ some (pos 12)
chunk_seq-chunk_key_example = chunk_seq-chunk_key 7 (pos 12) (codes "chunks") (codes ".webm")

chunk_key_injective_example : pos 12 ≡ pos 12
chunk_key_injective_example =
    chunk_key_injective 7 (pos 12) (pos 12) (codes "chunks") (codes ".webm") refl

abbrev prefix : Text
prefix = codes "p/"

abbrev shuffled : List Text
shuffled = codes "p/000010" ∷ codes "p/000009" ∷ []

sorted_keys_ordered_example :
    (out : List Text) × (sorted_keys prefix [] shuffled access_world ≡ (ok out, access_world))
    × Perm out shuffled
    × InSeqOrder prefix [] out
unfolding chunk_seq int_of
sorted_keys_ordered_example = sorted_keys_ordered prefix [] shuffled access_world (refl, (refl, tt))
