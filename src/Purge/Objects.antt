-- ===== src/Purge/Objects.antt =====
-- What a purge does to the storage, on the way and at the end, whatever calls fail.
use meeting_mgr.Base.{
  ◌≡◌, refl, ◌∙◌, ◌⊎◌, inl, inr, Bool, true, none, List, [], ◌∷◌, ◌++◌, arith, Bool-cases, any,
  any-append,
}
use meeting_mgr.Base.Text.{Text, text_eq}
use meeting_mgr.Db.State.{World, Exc, Result, client_error, ok, err}
use meeting_mgr.Db.Action.{Action, pure, ◌>>=◌, ◌>>◌, catch, next_fault, service_call}
use meeting_mgr.Db.Laws.{after, after_call}
use meeting_mgr.Storage.{Objects, without, lookup, delete_object, lookup-without}
use meeting_mgr.Purge.{delete_all, swallow}

abbrev pub has_key : Text → List Text → Bool
has_key j ks = any (λ k. text_eq k j) ks

-- None of the keys has an object.
pub record Gone (ks : List Text) (o : Objects) : Type 0 where
  pub at : (j : Text) → has_key j ks ≡ true → lookup j o ≡ none

-- Objects under the keys may be gone, and nothing else has changed.
pub record Shrunk (ks : List Text) (o o' : Objects) : Type 0 where
  pub at : (j : Text) → (lookup j o' ≡ lookup j o) ⊎ ((has_key j ks ≡ true) × (lookup j o' ≡ none))

abbrev pub Sub : List Text → List Text → Type 0
Sub ls ks = (j : Text) → has_key j ls ≡ true → has_key j ks ≡ true

pub Gone-Shrunk : {ks ls : List Text} {o o' : Objects} → Shrunk ls o o' → Gone ks o → Gone ks o'
Gone-Shrunk s g = record { at = λ j h. elim (s.at j) [ inl e ↦ e ∙ g.at j h | inr (m, e) ↦ e ] }

pub Shrunk-refl : (ks : List Text) (o : Objects) → Shrunk ks o o
Shrunk-refl ks o = record { at = λ j. inl refl }

-- A chain of removals under subsets of the keys.
pub Shrunk-trans :
    {ks ls : List Text} {o o' o'' : Objects}
    → Shrunk ks o o'
    → Shrunk ls o' o''
    → Sub ls ks
    → Shrunk ks o o''
Shrunk-trans s t sub = record {
  at = λ j. elim (t.at j) [
    | inl e ↦ elim (s.at j) [ inl f ↦ inl (e ∙ f) | inr (m, f) ↦ inr (m, e ∙ f) ]
    | inr (m, e) ↦ inr (sub j m, e)
  ];
}

pub Shrunk-Sub : {ks ls : List Text} {o o' : Objects} → Shrunk ls o o' → Sub ls ks → Shrunk ks o o'
Shrunk-Sub t sub = Shrunk-trans (Shrunk-refl _ _) t sub

pub Gone-append : (ks ls : List Text) {o : Objects} → Gone ks o → Gone ls o → Gone (ks ++ ls) o
Gone-append ks ls g h = record {
  at = λ j m. elim (Bool-cases (has_key j ks)) [
    | inl e ↦ g.at j e
    | inr e ↦ h.at j (ground (arith, any-append (λ (k : Text). text_eq k j) ks ls))
  ];
}

pub Sub-append_left : (ks ls : List Text) → Sub ks (ks ++ ls)
Sub-append_left ks ls j h = ground (arith, any-append (λ (k : Text). text_eq k j) ks ls)

pub Sub-append_right : (ks ls : List Text) → Sub ls (ks ++ ls)
Sub-append_right ks ls j h = ground (arith, any-append (λ (k : Text). text_eq k j) ks ls)

pub delete_object_cases :
    (k : Text) (w : World)
    → (delete_object k w ≡ (err client_error, after_call w))
      ⊎ (delete_object k w ≡ (ok tt, record (after_call w) { objects = without k w.objects }))
unfolding delete_object service_call
delete_object_cases k w = elim (Bool-cases (next_fault w.faults).0) [
  | inl e ↦ inl (ground arith)
  | inr e ↦ inr (ground arith)
]

-- The keys of a call that returned are gone; one that raised may have removed some of them.
pub record Removes {A : Type 0} (ks : List Text) (w : World) (r : Result A × World) : Type 0 where
  pub db : r.1.db ≡ w.db
  pub shrinks : Shrunk ks w.objects r.1.objects
  pub gone : (a : A) → r.0 ≡ ok a → Gone ks r.1.objects

without-Shrunk : (k : Text) (o : Objects) → Shrunk (k ∷ []) o (without k o)
without-Shrunk k o = record {
  at = λ j. elim (Bool-cases (text_eq k j)) [
    | inl e ↦ inr (ground (arith, e), ground (arith, lookup-without j k o))
    | inr e ↦ inl (ground (arith, lookup-without j k o))
  ];
}

without-Gone : (k : Text) (o : Objects) → Gone (k ∷ []) (without k o)
without-Gone k o = record { at = λ j h. ground (arith, lookup-without j k o) }

pub delete_object-Removes : (k : Text) (w : World) → Removes (k ∷ []) w (delete_object k w)
delete_object-Removes k w = elim (delete_object_cases k w) [
  | inl e ↦ rw e (record { db = refl; shrinks = Shrunk-refl _ _; gone = λ a h. cc })
  | inr e ↦ rw e (record {
    db = refl;
    shrinks = without-Shrunk k w.objects;
    gone = λ a h. without-Gone k w.objects;
  })
]

-- One step after another; the second is judged at any world that the first may leave.
module _ {A B : Type 0} (ks ls : List Text) (w : World) (f : A → Action B) where
  Removes-after :
      (r : Result A × World)
      → Removes ks w r
      → ((a : A) (v : World) → r ≡ (ok a, v) → Removes ls v (f a v))
      → Removes (ks ++ ls) w (after r f)
  Removes-after (ok a, v) p q =
      let second = q a v refl in
      record {
        db = second.db ∙ p.db;
        shrinks =
            Shrunk-trans (Shrunk-Sub p.shrinks (Sub-append_left ks ls)) second.shrinks
              (Sub-append_right ks ls);
        gone =
            λ b h. Gone-append ks ls (Gone-Shrunk second.shrinks (p.gone a refl)) (second.gone b h);
      }
  Removes-after (err e, v) p q = record {
    db = p.db;
    shrinks = Shrunk-Sub p.shrinks (Sub-append_left ks ls);
    gone = λ b h. cc;
  }

  pub Removes-bind :
      (m : Action A)
      → Removes ks w (m w)
      → ((a : A) (v : World) → m w ≡ (ok a, v) → Removes ls v (f a v))
      → Removes (ks ++ ls) w ((m >>= f) w)
  Removes-bind m p q = Removes-after (m w) p q

Removes-after-pure :
    {A B : Type 0} (ks : List Text) (w : World) (g : A → B) (r : Result A × World)
    → Removes ks w r
    → Removes ks w (after r (λ a. pure (g a)))
Removes-after-pure ks w g (ok a, v) p = record {
  db = p.db;
  shrinks = p.shrinks;
  gone = λ b h. p.gone a refl;
}
Removes-after-pure ks w g (err e, v) p = record { db = p.db; shrinks = p.shrinks; gone = λ b h. cc }

-- A result that is put together removes nothing.
pub Removes-map :
    {A B : Type 0} (ks : List Text) (w : World) (g : A → B) (m : Action A)
    → Removes ks w (m w)
    → Removes ks w ((m >>= λ a. pure (g a)) w)
Removes-map ks w g m p = Removes-after-pure ks w g (m w) p

pub Removes-nothing : {A : Type 0} (a : A) (w : World) → Removes [] w (pure a w)
Removes-nothing a w = record {
  db = refl;
  shrinks = Shrunk-refl _ _;
  gone = λ b h. record { at = λ j m. cc };
}

pub Removes-raise :
    {A : Type 0} (ks : List Text) (e : Exc) (w : World) → Removes {A = A} ks w (err e, w)
Removes-raise ks e w = record { db = refl; shrinks = Shrunk-refl _ _; gone = λ b h. cc }

pub delete_all-Removes : (ks : List Text) (w : World) → Removes ks w (delete_all ks w)
unfolding delete_all
delete_all-Removes [] w = Removes-nothing tt w
delete_all-Removes (k ∷ ks) w =
    Removes-bind (k ∷ []) ks w (λ _. delete_all ks) (delete_object k) (delete_object-Removes k w)
      (λ a v e. delete_all-Removes ks v)

-- A step of a loop that passes over failures returns if the rest does.
pub passed_over :
    (rest : Action (Unit {0})) (r : Result (Unit {0}) × World) (w : World)
    → ((v : World) → (rest v).0 ≡ ok tt)
    → ((catch (λ _. r) swallow >> rest) w).0 ≡ ok tt
passed_over rest (ok a, v) w h = h v
passed_over rest (err e, v) w h = h v
