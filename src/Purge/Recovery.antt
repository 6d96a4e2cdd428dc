-- ===== src/Purge/Recovery.antt =====
-- A purge that failed on the way is finished by a later one: no object is lost from sight.
pub mod Retry
pub mod Partial
pub mod Attempts
pub mod Success
pub mod Ending
use meeting_mgr.Base.{
  ◌≡◌, refl, sym, subst, ◌⊎◌, inl, inr, false, Option, none, some, List, [], ◌∷◌, ◌++◌, arith,
  Bool-cases,
}
use meeting_mgr.Base.Text.{Text}
use meeting_mgr.Models.{Recording}
use meeting_mgr.Db.State.{Body, World, Exc, Result, blob, json, client_error, value_error, ok, err}
use meeting_mgr.Db.Action.{Action, pure, ◌>>=◌, ◌>>◌, next_fault, service_call}
use meeting_mgr.Db.Laws.{after, after_call}
use meeting_mgr.Storage.{Objects, lookup, get_object, delete_object}
use meeting_mgr.Purge.{
  manifest_chunk_keys, delete_all, RawKey, raw_kind, purge_raw, purge_normalized, purge_recording,
  nothing, manifest, object,
}
use meeting_mgr.Purge.Objects.{
  has_key, Removes, delete_object-Removes, Removes-bind, Removes-map, Removes-nothing,
  Removes-raise, delete_all-Removes,
}

-- The chunk keys that a manifest lists; a missing one lists none.
abbrev pub listed : Option Body → List Text
listed (some (json keys)) = keys
listed _ = []

-- The keys that a raw key leads to.
abbrev pub raw_named : Objects → RawKey → List Text
raw_named o nothing = []
raw_named o (manifest mk) = listed (lookup mk o) ++ mk ∷ []
raw_named o (object k) = k ∷ []

abbrev pub normalized_named : Option Text → List Text
normalized_named none = []
normalized_named (some []) = []
normalized_named (some (c ∷ k)) = (c ∷ k) ∷ []

-- All keys of a Recording.
abbrev pub named : Objects → Recording → List Text
named o rec = raw_named o (raw_kind rec.raw_key) ++ normalized_named rec.normalized_key

-- A manifest does not list itself.
abbrev pub IsProper : Objects → RawKey → Type 0
IsProper o (manifest mk) = has_key mk (listed (lookup mk o)) ≡ false
IsProper o _ = Unit

-- A manifest is as it was.
abbrev pub Intact : RawKey → Objects → Objects → Type 0
Intact (manifest mk) o o' = lookup mk o' ≡ lookup mk o
Intact _ o o' = Unit

abbrev pub ReadsManifest : Text → World → Type 0
ReadsManifest mk w =
    ((e : Exc) × (manifest_chunk_keys mk w ≡ (err e, after_call w)))
    ⊎ (manifest_chunk_keys mk w ≡ (ok (listed (lookup mk w.objects)), after_call w))

read_body :
    (mk : Text) (w : World) (b : Option Body)
    → (next_fault w.faults).0 ≡ false
    → lookup mk w.objects ≡ b
    → ReadsManifest mk w
unfolding manifest_chunk_keys get_object service_call
read_body mk w none f e = inr (ground arith)
read_body mk w (some (json keys)) f e = inr (ground arith)
read_body mk w (some (blob bytes)) f e = inl (value_error, ground arith)

pub manifest_chunk_keys_cases : (mk : Text) (w : World) → ReadsManifest mk w
unfolding manifest_chunk_keys get_object service_call
manifest_chunk_keys_cases mk w = elim (Bool-cases (next_fault w.faults).0) [
  | inl f ↦ inl (client_error, ground arith)
  | inr f ↦ read_body mk w (lookup mk w.objects) f refl
]

-- The rest of the manifest's branch, once its chunks are known.
abbrev pub rest_of : Text → List Text → Action (List Text)
rest_of mk chunks = do delete_all chunks; delete_object mk; pure (chunks ++ mk ∷ [])

rest_of-Removes :
    (mk : Text) (chunks : List Text) (w : World)
    → Removes (chunks ++ mk ∷ []) w (rest_of mk chunks w)
rest_of-Removes mk chunks w =
    Removes-bind chunks (mk ∷ []) w (λ _. delete_object mk >> pure (chunks ++ mk ∷ []))
      (delete_all chunks) (delete_all-Removes chunks w)
      (λ a v e.
        Removes-map (mk ∷ []) v (λ _. chunks ++ mk ∷ []) (delete_object mk)
          (delete_object-Removes mk v))

-- The first call, the reading of the manifest, removes nothing.
Removes-read :
    {A : Type 0} (ks : List Text) (w : World) (r : Result A × World)
    → Removes ks (after_call w) r
    → Removes ks w r
Removes-read ks w r p = record { db = p.db; shrinks = p.shrinks; gone = p.gone }

pub purge_raw-Removes :
    (raw : RawKey) (w : World) → Removes (raw_named w.objects raw) w (purge_raw raw w)
unfolding purge_raw
purge_raw-Removes nothing w = Removes-nothing [] w
purge_raw-Removes (object k) w =
    Removes-map (k ∷ []) w (λ _. k ∷ []) (delete_object k) (delete_object-Removes k w)
purge_raw-Removes (manifest mk) w =
    let keys = listed (lookup mk w.objects) in
    elim (manifest_chunk_keys_cases mk w) [
      | inl (e, run) ↦
          subst (λ r. Removes (keys ++ mk ∷ []) w (after r (rest_of mk))) (sym run)
            (Removes-read (keys ++ mk ∷ []) w _ (Removes-raise (keys ++ mk ∷ []) e (after_call w)))
      | inr run ↦
          subst (λ r. Removes (keys ++ mk ∷ []) w (after r (rest_of mk))) (sym run)
            (Removes-read (keys ++ mk ∷ []) w _ (rest_of-Removes mk keys (after_call w)))
    ]

pub purge_normalized-Removes :
    (key : Option Text) (w : World) → Removes (normalized_named key) w (purge_normalized key w)
unfolding purge_normalized
purge_normalized-Removes none w = Removes-nothing [] w
purge_normalized-Removes (some []) w = Removes-nothing [] w
purge_normalized-Removes (some (c ∷ k)) w =
    Removes-map ((c ∷ k) ∷ []) w (λ _. (c ∷ k) ∷ []) (delete_object (c ∷ k))
      (delete_object-Removes (c ∷ k) w)

-- Every key of the Recording, and no other, is removed; none is left once the purge returns.
pub purge_recording-Removes :
    (rec : Recording) (w : World) → Removes (named w.objects rec) w (purge_recording (some rec) w)
unfolding purge_recording
purge_recording-Removes rec w =
    Removes-bind (raw_named w.objects (raw_kind rec.raw_key)) (normalized_named rec.normalized_key)
      w (λ keys. purge_normalized rec.normalized_key >>= λ more. pure (keys ++ more))
      (purge_raw (raw_kind rec.raw_key)) (purge_raw-Removes (raw_kind rec.raw_key) w)
      (λ keys v e.
        Removes-map (normalized_named rec.normalized_key) v (λ more. keys ++ more)
          (purge_normalized rec.normalized_key) (purge_normalized-Removes rec.normalized_key v))
