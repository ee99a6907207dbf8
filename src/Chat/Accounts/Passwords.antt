-- ===== src/Chat/Accounts/Passwords.antt =====
-- Passwords of accounts.
use memory_atlas_server.Prelude.{true, Text, drop, text_eq_iff, utf8, ◌≡◌, ◌↔◌, ap}
use memory_atlas_server.Chat.Accounts.{UserAccount, check_password, set_password, hash_password}

-- After a password is set, exactly that password is accepted: the hash of no other one passes.
pub check_password-set_password :
    (password other : Text) (account : UserAccount)
    → (check_password (hash_password other) (set_password (hash_password password) account) ≡ true)
      ↔ (password ≡ other)
unfolding check_password set_password hash_password utf8
check_password-set_password password other account =
    let same = text_eq_iff (hash_password password) (hash_password other) in
    (λ e. ap (drop 7) (same.0 e), λ e. same.1 (ap hash_password e))
