-- ===== src/Auth/Trust.antt =====
-- A request from an address that is not on the list cannot name a certificate's subject.
use meeting_mgr.Base.{
  ◌≡◌, refl, sym, ap, ◌∙◌, ◌≢◌, inl, inr, Bool, true, false, not, Option, none, some, List, [], ◌∷◌,
  Bool-cases, filter, any,
}
use meeting_mgr.Base.Text.{Text, text_eq, text_eq_iff, text_eq_refl}
use meeting_mgr.Db.State.{World}
use meeting_mgr.Db.Action.{◌>>=◌}
use meeting_mgr.Db.Session.{get_readonly_session}
use meeting_mgr.Auth.{
  Request, header, mtls_subject_header, lower, strip_headers, account_of_subject,
  account_of_session, get_current_account,
}

lowered :
    (k : Text)
    → text_eq k mtls_subject_header ≡ true
    → text_eq (lower k) mtls_subject_header ≢ false
lowered k f e =
    let same : k ≡ mtls_subject_header = (text_eq_iff k mtls_subject_header).0 f in
    let clash : true ≡ false =
      sym (text_eq_refl mtls_subject_header)
      ∙ ap (λ n. text_eq (lower n) mtls_subject_header) (sym same)
      ∙ e in
    cc

header-filter_absent :
    (headers : List (Text × Text))
    → header mtls_subject_header
        (filter (λ h. not (text_eq (lower h.0) mtls_subject_header)) headers)
      ≡ none
unfolding header
header-filter_absent [] = refl
header-filter_absent ((k, v) ∷ headers) =
    elim (Bool-cases (text_eq (lower k) mtls_subject_header)) [
      | inl e ↦ rw e (header-filter_absent headers)
      | inr e ↦ elim (Bool-cases (text_eq k mtls_subject_header)) [
        | inl f ↦ absurd (lowered k f e)
        | inr f ↦ rw (e, f) (header-filter_absent headers)
      ]
    ]

abbrev pub stripped : List Text → Option Text → Request → Request
stripped allowlist source_ip request = record request {
  headers = strip_headers allowlist source_ip request.headers;
}

-- Whether the address is on the list.
abbrev pub is_trusted : List Text → Option Text → Bool
is_trusted allowlist none = false
is_trusted allowlist (some ip) = any (text_eq ip) allowlist

stripped_header :
    (allowlist : List Text) (source_ip : Option Text) (headers : List (Text × Text))
    → is_trusted allowlist source_ip ≡ false
    → header mtls_subject_header (strip_headers allowlist source_ip headers) ≡ none
unfolding strip_headers
stripped_header allowlist none headers h = header-filter_absent headers
stripped_header allowlist (some ip) headers h = rw h (header-filter_absent headers)

-- A request from a source address that is not on the list gets the account, or the refusal, that
-- the same request without any header gets, whatever certificate subject its headers name and
-- however the name is written.
pub untrusted_subject_is_ignored :
    (allowlist : List Text) (source_ip : Option Text) (request : Request) (w : World)
    → is_trusted allowlist source_ip ≡ false
    → get_current_account (stripped allowlist source_ip request) w
      ≡ get_current_account (record request { headers = [] }) w
unfolding get_current_account header
untrusted_subject_is_ignored allowlist source_ip request w h =
    ap
      (λ subject.
        get_readonly_session
          (λ s. account_of_subject subject >>= account_of_session request.account_id) w)
      (stripped_header allowlist source_ip request.headers h)
