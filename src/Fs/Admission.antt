-- ===== src/Fs/Admission.antt =====
-- Which requests `on_recv` of fs/src/server.c lets through to a handler.
use cs2310_prj.Base.{
  ℕ, Bool, true, false, not, ◌&&◌, ◌||◌, Option, none, some, List, ◌≡◌, refl, ◌==◌, length, arith,
  ap, ◌∷◌, [], if◌then◌else◌, Bool-cases, inl, inr, ℤ, pos, is_neg,
}
use cs2310_prj.Base.Text.{str_eq}
use cs2310_prj.TcpBuffer.{reply_with_no}
use cs2310_prj.Fs.{Device, Fs, M, to_u32}
use cs2310_prj.Fs.Accounts.{handle_useradd, handle_userdel, handle_login}
use cs2310_prj.Fs.Listing.{handle_ls}
use cs2310_prj.Fs.Messages
use cs2310_prj.Fs.Dir.{is_none}
use cs2310_prj.Fs.Handle.{
  next_token, rest_of, rn, refuse, handle_f, handle_mk, handle_mkdir, handle_rm, handle_rmdir,
  handle_cd, handle_cat, handle_w, handle_i, handle_d, handle_e,
}
use cs2310_prj.Fs.Dispatch.{
  refused, refused_before_format, refused_for_user, login_name, f_name, useradd_name, userdel_name,
  is_other_user, find_command, cmd_table, run, serve,
}

-- The rule: before the file system is formatted only user 1 may log in, and format it; only user 1
-- formats it and manages users; whoever is not logged in may only log in.
abbrev pub permitted : Bool → ℤ → List ℕ → Option (List ℕ) → Bool
permitted formatted uid cmd args =
    (formatted
      || ((str_eq cmd login_name || str_eq cmd f_name)
          && not (str_eq cmd login_name && is_other_user args)))
    && ((not (str_eq cmd f_name) || to_u32 uid == 1)
        && ((not (is_neg uid) || str_eq cmd login_name)
            && (to_u32 uid == 1 || not (str_eq cmd useradd_name || str_eq cmd userdel_name))))

refused-permitted :
    (formatted : Bool) (uid : ℤ) (cmd : List ℕ) (args : Option (List ℕ))
    → is_none (refused formatted uid cmd args) ≡ permitted formatted uid cmd args
unfolding refused refused_before_format refused_for_user
refused-permitted formatted uid cmd args = ground arith

refusal : (o : Option (List ℕ)) → is_none o ≡ false → (t : List ℕ) × (o ≡ some t)
refusal none e = absurd (cc)
refusal (some t) e = (t, refl)

admitted : (o : Option (List ℕ)) → is_none o ≡ true → o ≡ none
admitted none e = refl
admitted (some t) e = absurd (cc)

-- The state after a refusal: the reply is queued, nothing else changes.
abbrev pub after_refusal : {D : Device} → Fs D → List ℕ → Fs D
after_refusal s t = record s {
  session = record s.session { wb = reply_with_no s.session.wb t (pos (length t)) };
}

-- The commands, by their names.
abbrev pub handler_of :
    (time_text : ℕ → List ℕ) {D : Device} → List ℕ → Option (List ℕ) → M (Fs D) ℤ
handler_of time_text cmd args =
    if str_eq cmd (b'f' ∷ [])
    then handle_f
    else (if str_eq cmd (b'm' ∷ b'k' ∷ [])
        then handle_mk args
        else (if str_eq cmd (b'm' ∷ b'k' ∷ b'd' ∷ b'i' ∷ b'r' ∷ [])
            then handle_mkdir args
            else (if str_eq cmd (b'r' ∷ b'm' ∷ [])
                then handle_rm args
                else (if str_eq cmd (b'r' ∷ b'm' ∷ b'd' ∷ b'i' ∷ b'r' ∷ [])
                    then handle_rmdir args
                    else (if str_eq cmd (b'c' ∷ b'd' ∷ [])
                        then handle_cd args
                        else (if str_eq cmd (b'l' ∷ b's' ∷ [])
                            then handle_ls time_text
                            else (if str_eq cmd (b'c' ∷ b'a' ∷ b't' ∷ [])
                                then handle_cat args
                                else (if str_eq cmd (b'w' ∷ [])
                                    then handle_w args
                                    else (if str_eq cmd (b'i' ∷ [])
                                        then handle_i args
                                        else (if str_eq cmd (b'd' ∷ [])
                                            then handle_d args
                                            else (if str_eq cmd
                                                  (b'l' ∷ b'o' ∷ b'g' ∷ b'i' ∷ b'n' ∷ [])
                                                then handle_login args
                                                else (if str_eq cmd (
                                                      b'u' ∷ b's' ∷ b'e' ∷ b'r' ∷ b'a' ∷ b'd' ∷ b'd'
                                                      ∷ [])
                                                    then handle_useradd args
                                                    else (if str_eq cmd (
                                                          b'u' ∷ b's' ∷ b'e' ∷ b'r' ∷ b'd' ∷ b'e'
                                                          ∷ b'l' ∷ [])
                                                        then handle_userdel args
                                                        else (if str_eq cmd (b'e' ∷ [])
                                                            then handle_e
                                                            else (refuse
                                                            Messages.unknown_command)))))))))))))))

run-handler_of :
    (time_text : ℕ → List ℕ) {D : Device} (cmd : List ℕ) (args : Option (List ℕ))
    → run time_text {D = D} (find_command cmd_table cmd) args ≡ handler_of time_text cmd args
unfolding run find_command
run-handler_of time_text cmd args = elim (Bool-cases (str_eq cmd (b'f' ∷ []))) [
  | inl y ↦ rw (y)
  | inr n0 ↦ elim (Bool-cases (str_eq cmd (b'm' ∷ b'k' ∷ []))) [
    | inl y ↦ rw (n0, y)
    | inr n1 ↦ elim (Bool-cases (str_eq cmd (b'm' ∷ b'k' ∷ b'd' ∷ b'i' ∷ b'r' ∷ []))) [
      | inl y ↦ rw (n0, n1, y)
      | inr n2 ↦ elim (Bool-cases (str_eq cmd (b'r' ∷ b'm' ∷ []))) [
        | inl y ↦ rw (n0, n1, n2, y)
        | inr n3 ↦ elim (Bool-cases (str_eq cmd (b'r' ∷ b'm' ∷ b'd' ∷ b'i' ∷ b'r' ∷ []))) [
          | inl y ↦ rw (n0, n1, n2, n3, y)
          | inr n4 ↦ elim (Bool-cases (str_eq cmd (b'c' ∷ b'd' ∷ []))) [
            | inl y ↦ rw (n0, n1, n2, n3, n4, y)
            | inr n5 ↦ elim (Bool-cases (str_eq cmd (b'l' ∷ b's' ∷ []))) [
              | inl y ↦ rw (n0, n1, n2, n3, n4, n5, y)
              | inr n6 ↦ elim (Bool-cases (str_eq cmd (b'c' ∷ b'a' ∷ b't' ∷ []))) [
                | inl y ↦ rw (n0, n1, n2, n3, n4, n5, n6, y)
                | inr n7 ↦ elim (Bool-cases (str_eq cmd (b'w' ∷ []))) [
                  | inl y ↦ rw (n0, n1, n2, n3, n4, n5, n6, n7, y)
                  | inr n8 ↦ elim (Bool-cases (str_eq cmd (b'i' ∷ []))) [
                    | inl y ↦ rw (n0, n1, n2, n3, n4, n5, n6, n7, n8, y)
                    | inr n9 ↦ elim (Bool-cases (str_eq cmd (b'd' ∷ []))) [
                      | inl y ↦ rw (n0, n1, n2, n3, n4, n5, n6, n7, n8, n9, y)
                      | inr n10 ↦
                          elim (Bool-cases (str_eq cmd (b'l' ∷ b'o' ∷ b'g' ∷ b'i' ∷ b'n' ∷ []))) [
                            | inl y ↦ rw (n0, n1, n2, n3, n4, n5, n6, n7, n8, n9, n10, y)
                            | inr n11 ↦
                                elim (Bool-cases (
                                  str_eq cmd
                                    (b'u' ∷ b's' ∷ b'e' ∷ b'r' ∷ b'a' ∷ b'd' ∷ b'd' ∷ []))) [
                                      | inl y ↦
                                          rw (n0, n1, n2, n3, n4, n5, n6, n7, n8, n9, n10, n11, y)
                                      | inr n12 ↦
                                          elim (Bool-cases (
                                            str_eq cmd (
                                              b'u' ∷ b's' ∷ b'e' ∷ b'r' ∷ b'd' ∷ b'e' ∷ b'l'
                                              ∷ []))) [
                                                | inl y ↦ rw (
                                                  n0, n1, n2, n3, n4, n5, n6, n7, n8, n9, n10, n11,
                                                  n12, y,
                                                )
                                                | inr n13 ↦
                                                    elim (Bool-cases (str_eq cmd (b'e' ∷ []))) [
                                                      | inl y ↦ rw (
                                                        n0, n1, n2, n3, n4, n5, n6, n7, n8, n9, n10,
                                                        n11, n12, n13, y,
                                                      )
                                                      | inr n14 ↦ rw (
                                                        n0, n1, n2, n3, n4, n5, n6, n7, n8, n9, n10,
                                                        n11, n12, n13, n14,
                                                      )
                                                    ]
                                              ]
                                    ]
                          ]
                    ]
                  ]
                ]
              ]
            ]
          ]
        ]
      ]
    ]
  ]
]

module _ (time_text : ℕ → List ℕ) {D : Device} (text cmd rest : List ℕ) (s : Fs D) where
  -- A request with a command that the rule `permitted` forbids is answered with a refusal, and
  -- leaves everything else as it was: the disk, the inodes, and the session but for its reply
  -- buffer.
  pub serve-forbidden :
      next_token text ≡ some (cmd, rest)
      → permitted s.fs_initialized s.session.uid cmd (rest_of rest) ≡ false
      → (t : List ℕ) × (serve time_text text s ≡ some (pos 0, after_refusal s t))
  unfolding serve rn
  serve-forbidden e h =
      let (t, r) =
        refusal (refused s.fs_initialized s.session.uid cmd (rest_of rest))
          (cc (refused-permitted s.fs_initialized s.session.uid cmd (rest_of rest))) in
      (t, rw (e, r) refl)

  -- A request that the rule `permitted` admits is run by the handler of the command that its name
  -- says, on the arguments behind the name, where it has any; and a request with none of the
  -- fifteen names is answered by a refusal.
  pub serve-permitted :
      next_token text ≡ some (cmd, rest)
      → permitted s.fs_initialized s.session.uid cmd (rest_of rest) ≡ true
      → serve time_text text s ≡ handler_of time_text cmd (rest_of rest) s
  unfolding serve
  serve-permitted e h =
      let r =
        admitted (refused s.fs_initialized s.session.uid cmd (rest_of rest))
          (cc (refused-permitted s.fs_initialized s.session.uid cmd (rest_of rest))) in
      rw (e, r) (ap (λ (m : M (Fs D) ℤ). m s) (run-handler_of time_text cmd (rest_of rest)))
