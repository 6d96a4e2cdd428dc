-- ===== src/Tests/Purging.antt =====
-- A purge that fails at its third storage call, and is tried again.
use meeting_mgr.Base.{◌≡◌, refl, true, false, [], ◌∷◌}
use meeting_mgr.Base.Text.{text_eq, starts_with, remove_prefix}
use meeting_mgr.Db.State.{World, client_error, ok}
use meeting_mgr.Db.Action.{service_call}
use meeting_mgr.Db.Session.{sees_meeting}
use meeting_mgr.Db.Rows.{record_audit}
use meeting_mgr.Db.Laws.{calm}
use meeting_mgr.Db.Time.{days}
use meeting_mgr.Storage.{without, lookup, get_object, delete_object}
use meeting_mgr.Tests.Samples.{sample_world, recorded, recorded_db, recorded_objects}
use meeting_mgr.Retention.{audio, full}
use meeting_mgr.Purge.{
  manifest_chunk_keys, delete_all, raw_kind, purge_raw, purge_normalized, purge_recording,
  purge_audio_objects, delete_recordings, purge_meeting_audio, cascade, delete_meeting,
  purge_meeting_full, purge_by_kind,
}
use meeting_mgr.Purge.Objects.{Gone, Shrunk}
use meeting_mgr.Purge.Recovery.{named}
use meeting_mgr.Purge.Recovery.Attempts.{purge_recovers, no_attempt, attempt}
use meeting_mgr.Purge.Recovery.Ending.{purge_ends}
use meeting_mgr.Purge.Isolation.{purge_of_foreign_meeting}
use meeting_mgr.Purge.Erasure.{is_erased, full_purge_erases, purge_touches_named}
use meeting_mgr.Storage.{without, lookup, get_object, delete_object}

abbrev first : World
first = sample_world recorded_db recorded_objects (false ∷ false ∷ true ∷ [])

abbrev second : World
second = record (purge_by_kind 1 audio 7 first).1 { faults = []; now = days 101 }

purge_recovers_example :
    Gone (named recorded_objects recorded) (purge_by_kind 1 audio 7 second).1.objects
unfolding purge_by_kind purge_meeting_audio purge_audio_objects purge_recording purge_raw raw_kind
    manifest_chunk_keys delete_all get_object delete_object service_call lookup without text_eq
    starts_with remove_prefix sees_meeting delete_recordings record_audit purge_normalized
purge_recovers_example =
    purge_recovers 1 audio 7 recorded first second (purge_by_kind 1 audio 7 second).1 refl refl
      (attempt {e = client_error} refl [] (days 101) no_attempt) refl

purge_of_foreign_meeting_example : purge_by_kind 2 full 7 first ≡ (ok tt, first)
unfolding sees_meeting
purge_of_foreign_meeting_example = purge_of_foreign_meeting 2 full 7 first refl

full_purge_erases_example :
    is_erased 1 7 recorded_db.clusters (purge_by_kind 1 full 7 second).1.db ≡ true
unfolding purge_by_kind purge_meeting_audio purge_meeting_full delete_meeting cascade
    purge_audio_objects purge_recording purge_raw raw_kind manifest_chunk_keys delete_all get_object
    delete_object service_call lookup without text_eq starts_with remove_prefix sees_meeting
    delete_recordings record_audit purge_normalized
full_purge_erases_example = full_purge_erases 1 7 second (purge_by_kind 1 full 7 second).1 refl refl

purge_touches_named_example :
    Shrunk
      (named recorded_objects recorded)
      recorded_objects
      (purge_by_kind 1 audio 7 first).1.objects
unfolding sees_meeting
purge_touches_named_example = purge_touches_named 1 audio 7 recorded first refl

purge_ends_example :
    ((purge_by_kind 1 audio 7 (calm second)).0 ≡ ok tt)
    × Gone (named recorded_objects recorded) (purge_by_kind 1 audio 7 (calm second)).1.objects
unfolding purge_by_kind purge_meeting_audio purge_audio_objects purge_recording purge_raw raw_kind
    manifest_chunk_keys delete_all get_object delete_object service_call lookup without text_eq
    starts_with remove_prefix sees_meeting delete_recordings record_audit purge_normalized
purge_ends_example =
    purge_ends 1 audio 7 recorded first second refl refl (λ bytes e. cc e)
      (attempt {e = client_error} refl [] (days 101) no_attempt)
