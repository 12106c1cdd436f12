-- ===== src/Client/Connect.antt =====
-- Who gets a connection, what the service finds of it, and what a close leaves.
use Prim.Native.String.{String}
use stadhouder.Base.{
  >>=-eq-ok, ◌≡◌, refl, ap, sym, ◌∙◌, Bool, true, false, Option, none, some, Text, arith, Result,
  ok, err, Result-cases, inl, inr, or_fail,
}
use stadhouder.Json.{Json}
use stadhouder.Float.{Float}
use stadhouder.Disk
use stadhouder.Disk.{Disk, is_denied}
use stadhouder.Layout.{Env, stadhouder_dir}
use stadhouder.Config
use stadhouder.Config.{Config}
use stadhouder.Cookie.{has_cookie}
use stadhouder.Identity.{verify_user}
use stadhouder.Request.{same_host_url}
use stadhouder.State
use stadhouder.State.Profiles.{
  load-save, profile_name-is_profile_name, exists-delete_connection_profile,
  delete_connection_profile-absent,
}
use stadhouder.State.{
  tmp_name, RoundTrips, Serde, ServiceFlag, ConnectionProfile, state_dir, read_service_flag,
  delete_connection_profile, profile_name, save,
}
use stadhouder.Client.{
  Surroundings, profile_for, check_memory, check_cookie, user_of, admit, new_profile, connect,
  close, signed_in, written, established_sim, closed,
}

ok_eq : {A : Type 0} {a b : A} → ◌≡◌ {A = Result A} (ok a) (ok b) → a ≡ b
ok_eq h = cc

module _ {V F : Type 0} (j : Json V) (f : Float F) where
  abbrev pub MemoryFits : Config F → Option (ServiceFlag F) → Type 0
  MemoryFits config none = Unit
  MemoryFits config (some flag) = f.geb flag.memory_pct config.memory_reject_pct ≡ false

  abbrev pub HasCookie : Option Text → Option Text → Type 0
  HasCookie none cookie_header = Unit
  HasCookie (some name) cookie_header = has_cookie cookie_header name ≡ true

  -- The user is the one that is claimed, or where the configuration asks for it the one that the site
  -- names when it is given the request's cookies.
  abbrev pub IsUser : Config F → Surroundings → Option Text → Text → Text → Type 0
  IsUser config w none claimed user = user ≡ claimed
  IsUser config w (some user_id_url) claimed user =
      (field_path : Text) × (url : Text) × (config.user_id_json ≡ some field_path)
      × (same_host_url w.env user_id_url ≡ ok url)
      × (verify_user j w.fetch url w.cookie_header field_path ≡ ok (some user))

  check_memory-MemoryFits :
      (config : Config F) (flag : Option (ServiceFlag F))
      → check_memory f config flag ≡ ok tt
      → MemoryFits config flag
  unfolding check_memory
  check_memory-MemoryFits config none h = tt
  check_memory-MemoryFits config (some flag) h = ground arith

  check_cookie-HasCookie :
      (name cookie_header : Option Text)
      → check_cookie name cookie_header ≡ ok tt
      → HasCookie name cookie_header
  unfolding check_cookie
  check_cookie-HasCookie none cookie_header h = tt
  check_cookie-HasCookie (some name) cookie_header h = ground arith

  signed_in-some : (o : Option Text) (user : Text) → signed_in o ≡ ok user → o ≡ some user
  unfolding signed_in
  signed_in-some none user h = cc
  signed_in-some (some verified) user h = ground arith

  or_fail-some :
      (o : Option Text) (m : String) (value : Text) → or_fail o m ≡ ok value → o ≡ some value
  or_fail-some none m value h = cc
  or_fail-some (some t) m value h = ground arith

  user_of-IsUser :
      (config : Config F) (w : Surroundings) (url : Option Text) (claimed user : Text)
      → user_of j config w url claimed ≡ ok user
      → IsUser config w url claimed user
  unfolding user_of
  user_of-IsUser config w none claimed user h = ground arith
  user_of-IsUser config w (some user_id_url) claimed user h =
      let (field_path, e, h₁) =
        >>=-eq-ok (or_fail config.user_id_json "USER_ID_URL is configured but USER_ID_JSON is not")
          _ h in
      let (url, e₁, h₂) = >>=-eq-ok (same_host_url w.env user_id_url) _ h₁ in
      let (verified, e₂, h₃) =
        >>=-eq-ok (verify_user j w.fetch url w.cookie_header field_path) _ h₂ in
      (
        field_path,
        url,
        or_fail-some config.user_id_json _ field_path e,
        e₁,
        e₂ ∙ ap ok (signed_in-some verified user h₃),
      )

module _ {V : Type 0} (j : Json V) where
  closed-disk : (x : Result Bool × Disk) (d : Disk) (v : V) → closed j x ≡ (ok v, d) → d ≡ x.1
  unfolding closed
  closed-disk (err m, d') d v h = cc
  closed-disk (ok false, d') d v h = cc
  closed-disk (ok true, d') d v h = ground arith

  closed-false : (d : Disk) → closed j (ok false, d) ≡ (err "unknown connection", d)
  unfolding closed
  closed-false d = refl

  -- What a close that succeeded has removed.
  pub close-gone :
      (env : Env) (id : Text) (d d' : Disk) (v : V)
      → is_denied (profile_name id) d ≡ false
      → close j env id d ≡ (ok v, d')
      → Disk.exists (profile_name id) d' ≡ false
  unfolding close
  close-gone env id d d' v k h = elim (Result-cases (state_dir env)) [
    | inr (m, e) ↦ cc (rw (e, close) at h)
    | inl (dir, e) ↦
        ap (Disk.exists (profile_name id))
          (closed-disk (delete_connection_profile id d) d' v (rw (e, close) at h))
        ∙ exists-delete_connection_profile id d k
  ]

module _ {V F : Type 0} (j : Json V) (f : Float F) (s : Serde F) where
  written-ok :
      (w : Surroundings) (p : ConnectionProfile) (d d' : Disk) (v : V)
      → written j f s w (ok p) d ≡ (ok v, d')
      → ((save s p d).0 ≡ ok tt) × (d' ≡ (save s p d).2)
  unfolding written
  written-ok w p d d' v h = elim (Result-cases (save s p d).0) [
    | inl (u, e) ↦ (e, ground arith)
    | inr (m, e) ↦ cc (rw (e, written) at h)
  ]

  admit-guards :
      (config : Config F) (w : Surroundings) (claimed user : Text) (d : Disk)
      → admit j f s config w claimed d ≡ ok user
      → (flag : Option (ServiceFlag F)) × (read_service_flag s d ≡ ok flag)
        × MemoryFits j f config flag
        × HasCookie j f config.cookie_name w.cookie_header
        × IsUser j f config w config.user_id_url claimed user
  unfolding admit
  admit-guards config w claimed user d h =
      let (dir, a₁, k₁) = >>=-eq-ok (state_dir w.env) _ h in
      let (flag, a₂, k₂) = >>=-eq-ok (read_service_flag s d) _ k₁ in
      let (u₃, a₃, k₃) = >>=-eq-ok (check_memory f config flag) _ k₂ in
      let (u₄, a₄, k₄) = >>=-eq-ok (check_cookie config.cookie_name w.cookie_header) _ k₃ in
      (
        flag,
        a₂,
        check_memory-MemoryFits j f config flag a₃,
        check_cookie-HasCookie j f config.cookie_name w.cookie_header a₄,
        user_of-IsUser j f config w config.user_id_url claimed user k₄,
      )

  new_profile-admits :
      (w : Surroundings) (claimed : Text) (d : Disk) (p : ConnectionProfile)
      → new_profile j f s w claimed d ≡ ok p
      → (config : Config F) × (Config.load f w.config_file ≡ ok config)
        × (admit j f s config w claimed d ≡ ok p.user_id)
        × (p.connection_id ≡ w.uuid)
  unfolding new_profile
  new_profile-admits w claimed d p h =
      let (config, e₁, h₁) = >>=-eq-ok (Config.load f w.config_file) _ h in
      let (user, e₂, h₂) = >>=-eq-ok (admit j f s config w claimed d) _ h₁ in
      let (home, e₃, h₃) = >>=-eq-ok (stadhouder_dir w.env) _ h₂ in
      let (sim, e₄, h₄) = >>=-eq-ok (established_sim j f s config w d) _ h₃ in
      let e = ok_eq h₄ in
      (
        config,
        e₁,
        e₂ ∙ ap (λ q. ok (ConnectionProfile.user_id q)) e,
        ap ConnectionProfile.connection_id (sym e),
      )

  -- A connection is made only where the service's memory allows it, the cookie is there that the
  -- configuration names, and the user is known as it asks; the profile that is saved then has that user
  -- and the fresh id.
  pub connect_guards :
      (w : Surroundings) (claimed : Text) (d d' : Disk) (v : V)
      → connect j f s w claimed d ≡ (ok v, d')
      → (config : Config F) × (flag : Option (ServiceFlag F)) × (p : ConnectionProfile)
        × (Config.load f w.config_file ≡ ok config)
        × (read_service_flag s d ≡ ok flag)
        × MemoryFits j f config flag
        × HasCookie j f config.cookie_name w.cookie_header
        × IsUser j f config w config.user_id_url claimed p.user_id
        × (p.connection_id ≡ w.uuid)
        × ((save s p d).0 ≡ ok tt)
        × (d' ≡ (save s p d).2)
  unfolding connect
  connect_guards w claimed d d' v h = elim (Result-cases (new_profile j f s w claimed d)) [
    | inr (m, e) ↦ cc (rw (e, connect, written) at h)
    | inl (p, e) ↦
        let saved = written-ok w p d d' v (rw (e, connect) at h) in
        let (config, e₁, e₂, id) = new_profile-admits w claimed d p e in
        let (flag, e₃, fits, cookie, user) = admit-guards config w claimed p.user_id d e₂ in
        (config, flag, p, e₁, e₃, fits, cookie, user, id, saved.0, saved.1)
  ]

  -- Who is not admitted gets the error, and the directory is as it was.
  pub connect_refused :
      (w : Surroundings) (claimed : Text) (d : Disk) (config : Config F) (m : String)
      → Config.load f w.config_file ≡ ok config
      → admit j f s config w claimed d ≡ err m
      → connect j f s w claimed d ≡ (err m, d)
  unfolding connect new_profile
  connect_refused w claimed d config m e h = rw (e, h) refl

  -- Once a connection is closed its id is unknown: to the client program, and to a second close.
  pub close_forgets :
      (env : Env) (id : Text) (d d' : Disk) (v : V)
      → is_denied (profile_name id) d ≡ false
      → close j env id d ≡ (ok v, d')
      → (profile_for s env id d' ≡ err "unknown connection")
        × (close j env id d' ≡ (err "unknown connection", d'))
  unfolding close profile_for
  close_forgets env id d d' v k h = elim (Result-cases (state_dir env)) [
    | inr (m, e) ↦ cc (rw (e, close) at h)
    | inl (dir, e) ↦
        let gone = close-gone j env id d d' v k h in
        (
          rw (e, profile_for, gone) refl,
          rw (e, close, delete_connection_profile-absent id d' gone) (closed-false j d'),
        )
  ]

  save-fails :
      (p : ConnectionProfile) (d : Disk) (m : String)
      → s.profile_to_string p ≡ err m
      → (save s p d).0 ≡ err m
  unfolding save
  save-fails p d m e = rw (e, save) refl

  saved-load :
      (p : ConnectionProfile) (d : Disk)
      → RoundTrips s
      → is_denied (tmp_name p.connection_id) d ≡ false
      → is_denied (profile_name p.connection_id) d ≡ false
      → (save s p d).0 ≡ ok tt
      → State.load s (profile_name p.connection_id) (save s p d).2 ≡ ok p
  saved-load p d rt k k' h = elim (Result-cases (s.profile_to_string p)) [
    | inl (t, e) ↦
        (load-save s p t d (profile_name p.connection_id) rt e k k'
          (profile_name-is_profile_name p.connection_id)).1
    | inr (m, e) ↦ cc (sym h ∙ save-fails p d m e)
  ]

  saved-load_at :
      (p : ConnectionProfile) (id : Text) (d d' : Disk)
      → RoundTrips s
      → p.connection_id ≡ id
      → is_denied (tmp_name id) d ≡ false
      → is_denied (profile_name id) d ≡ false
      → (save s p d).0 ≡ ok tt
      → d' ≡ (save s p d).2
      → State.load s (profile_name id) d' ≡ ok p
  saved-load_at p id d d' rt e k k' h there_ =
      ap (λ x. State.load s (profile_name x) d') (sym e)
      ∙ ap (State.load s (profile_name p.connection_id)) there_
      ∙ saved-load p d rt (ap (λ x. is_denied (tmp_name x) d) e ∙ k)
          (ap (λ x. is_denied (profile_name x) d) e ∙ k') h

  -- What the client program answers a connect with is a connection that the service can pick up: under
  -- the name of the new id there is a whole profile, of that id, that loads.
  pub connect_found :
      (w : Surroundings) (claimed : Text) (d d' : Disk) (v : V)
      → RoundTrips s
      → is_denied (tmp_name w.uuid) d ≡ false
      → is_denied (profile_name w.uuid) d ≡ false
      → connect j f s w claimed d ≡ (ok v, d')
      → (p : ConnectionProfile) × (p.connection_id ≡ w.uuid)
        × (State.load s (profile_name w.uuid) d' ≡ ok p)
  connect_found w claimed d d' v rt k k' h =
      let g = connect_guards w claimed d d' v h in
      (g.2, g.8, saved-load_at g.2 w.uuid d d' rt g.8 k k' g.9 g.10)
