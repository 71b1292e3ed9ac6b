-- ===== src/Session/Rotation.antt =====
-- A refresh token is used once.
use nestjs_homework.Base.{
  subst, ℕ, Bool, Option, none, some, List, ◌≡◌, ◌≢◌, arith, Option-cases, inl, inr,
}
use nestjs_homework.Base.Result.{ok, err}
use nestjs_homework.Contracts.{Uuid, Time}
use nestjs_homework.Account.{Account, find_by, found_id}
use nestjs_homework.Grpc.{unauthenticated}
use nestjs_homework.Session.{
  StoredToken, get_session, delete_session, set_session, Claims, Tokens, AuthFault, rpc,
  unauthorized, login, refresh, logout,
}
use nestjs_homework.Session.Changes.{
  get_session-delete_session, get_session-set_session, Changed, unchanged, issued, login-Changed,
  refresh-Changed,
}

module _ (sign_tokens : ℕ → Claims → Tokens) (verify_token : Time → ℕ → Option Claims)
    (verify_password : ℕ → ℕ → Bool) where
  -- The draw does not issue the token again.
  abbrev pub IssuesOther : ℕ → ℕ → Type 0
  IssuesOther token draw = (c : Claims) → (sign_tokens draw c).refresh_token ≢ token

  -- Whenever the token is checked, it is refused or names the same account: the claims are in the token.
  abbrev pub NamesOne : ℕ → Type 0
  NamesOne token =
      (now now' : Time) (c c' : Claims)
      → verify_token now token ≡ some c
      → verify_token now' token ≡ some c'
      → c.id ≡ c'.id

  -- One call that does not issue `token`, or the end of a session.
  pub data Step (token : ℕ) (s : List StoredToken) : List StoredToken → Type 0 where
    logs_in :
        (draw username password : ℕ) (accounts : List Account)
        → IssuesOther token draw
        → Step token s
            (login sign_tokens verify_token verify_password draw username password accounts s).1
    refreshes :
        (draw : ℕ) (now : Time) (t : ℕ) (accounts : List Account)
        → IssuesOther token draw
        → Step token s (refresh sign_tokens verify_token verify_password draw now t accounts s).1
    logs_out :
        (now : Time) (t : ℕ)
        → Step token s (logout sign_tokens verify_token verify_password now t s)
    expires : (id : Uuid) → Step token s (delete_session id s)

  pub data Reach (token : ℕ) (s : List StoredToken) : List StoredToken → Type 0 where
    here : Reach token s s
    next : {s' s'' : List StoredToken} → Reach token s s' → Step token s' s'' → Reach token s s''

  Changed-lacks :
      (token draw id : ℕ) (s s' : List StoredToken)
      → IssuesOther token draw
      → get_session id s ≢ some token
      → Changed sign_tokens verify_token verify_password draw s s'
      → get_session id s' ≢ some token
  Changed-lacks token draw id s _ other lacks unchanged = lacks
  Changed-lacks token draw id s _ other lacks (issued c) = λ h.
      ground (arith, get_session-set_session id c.id (sign_tokens draw c).refresh_token s, other c)

  Step-lacks :
      (token id : ℕ) {s s' : List StoredToken}
      → get_session id s ≢ some token
      → Step token s s'
      → get_session id s' ≢ some token
  unfolding logout
  Step-lacks token id lacks (logs_in draw username password accounts other) =
      Changed-lacks token draw id _ _ other lacks
        (login-Changed sign_tokens verify_token verify_password draw username password accounts _)
  Step-lacks token id lacks (refreshes draw now t accounts other) =
      Changed-lacks token draw id _ _ other lacks
        (refresh-Changed sign_tokens verify_token verify_password draw now t accounts _)
  Step-lacks token id {s} lacks (logs_out now t) = λ h. elim (Option-cases (verify_token now t)) [
    | inl e ↦ ground arith
    | inr (c, e) ↦ ground (arith, get_session-delete_session id c.id s)
  ]
  Step-lacks token id {s} lacks (expires k) = λ h. ground (arith, get_session-delete_session id k s)

  Reach-lacks :
      (token id : ℕ) {s s' : List StoredToken}
      → get_session id s ≢ some token
      → Reach token s s'
      → get_session id s' ≢ some token
  Reach-lacks token id lacks here = lacks
  Reach-lacks token id lacks (next r step) = Step-lacks token id (Reach-lacks token id lacks r) step

  -- What a refresh that succeeds has found and stored.
  record Refreshed (now : Time) (token draw : ℕ) (s s' : List StoredToken) : Type 0 where
    claims : Claims
    verified : verify_token now token ≡ some claims
    next_claims : Claims
    same_account : next_claims.id ≡ claims.id
    stored : s' ≡ set_session next_claims.id (sign_tokens draw next_claims).refresh_token s

  refreshed :
      (draw : ℕ) (now : Time) (token : ℕ) (accounts : List Account) (s : List StoredToken)
      {tokens : Tokens}
      → (refresh sign_tokens verify_token verify_password draw now token accounts s).0 ≡ ok tokens
      → Refreshed now token draw s
          (refresh sign_tokens verify_token verify_password draw now token accounts s).1
  unfolding refresh
  refreshed draw now token accounts s h = elim (Option-cases (verify_token now token)) [
    | inl e ↦ absurd (ground arith)
    | inr (claims, e) ↦ elim (Option-cases (get_session claims.id s)) [
      | inl gone ↦ absurd (ground arith)
      | inr (stored, got) ↦ elim (Option-cases (find_by (some claims.id) none none accounts)) [
        | inl lost ↦ absurd (ground arith)
        | inr (a, found) ↦ record {
          claims = claims;
          verified = e;
          next_claims = record { id = a.id; role = a.role };
          same_account = found_id claims.id accounts a found;
          stored = ground arith;
        }
      ]
    ]
  ]

  refused_of_lacks :
      (draw : ℕ) (now : Time) (token id : ℕ) (accounts : List Account) (s : List StoredToken)
      → ((c : Claims) → verify_token now token ≡ some c → id ≡ c.id)
      → get_session id s ≢ some token
      → (e : AuthFault) × (refresh sign_tokens verify_token verify_password draw now token accounts
            s
          ≡ (err e, s))
  unfolding refresh
  refused_of_lacks draw now token id accounts s names lacks =
      elim (Option-cases (verify_token now token)) [
        | inl e ↦ (unauthorized, ground arith)
        | inr (c, e) ↦
            let same = names c e in
            (
              rpc unauthenticated,
              ground (arith, subst (λ k. get_session k s ≢ some token) same lacks),
            )
      ]

  -- A refresh token is used once: after a refresh with it has succeeded, and whatever logins, refreshes,
  -- logouts and expiries come in between, a refresh with it is refused at any later time and changes
  -- nothing. Neither that first refresh nor a call in between may issue the very same token again, which
  -- signing within one second can do, and the token names the same account whenever it is checked.
  pub refresh_once :
      (draw draw' : ℕ) (now now' : Time) (token : ℕ) (accounts accounts' : List Account)
      (s : List StoredToken) {tokens : Tokens} {s' : List StoredToken}
      → NamesOne token
      → IssuesOther token draw
      → (refresh sign_tokens verify_token verify_password draw now token accounts s).0 ≡ ok tokens
      → Reach token
          (refresh sign_tokens verify_token verify_password draw now token accounts s).1
          s'
      → (e : AuthFault) × (refresh sign_tokens verify_token verify_password draw' now' token
            accounts' s'
          ≡ (err e, s'))
  refresh_once draw draw' now now' token accounts accounts' s {s' = s'} names other h r =
      let f = refreshed draw now token accounts s h in
      let lacks : get_session f.claims.id
            (refresh sign_tokens verify_token verify_password draw now token accounts s).1
          ≢ some token =
        λ k. ground (
          arith,
          f.stored,
          f.same_account,
          get_session-set_session f.claims.id f.next_claims.id
              (sign_tokens draw f.next_claims).refresh_token s,
          other f.next_claims,
        ) in
      refused_of_lacks draw' now' token f.claims.id accounts' s'
        (λ c. names now now' f.claims c f.verified) (Reach-lacks token f.claims.id lacks r)
