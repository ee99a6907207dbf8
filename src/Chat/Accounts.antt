-- ===== src/Chat/Accounts.antt =====
-- include/ChatServer.hpp and src/ChatServer.cpp: `UserAccount`, `FileTransferInfo` and
-- `hash_password`, which no operation of the server uses yet.
pub mod Passwords
use memory_atlas_server.Prelude.{ℕ, ◌++◌, Bool, false, Text, text_eq, utf8}

pub record UserAccount : Type 0 where
  pub username : Text
  pub password_hash : Text
  pub is_admin : Bool
  pub last_ip : Text
  pub last_login : Text

unfoldable pub create_account : Text → Text → Bool → UserAccount
create_account username password_hash is_admin = record {
  username = username;
  password_hash = password_hash;
  is_admin = is_admin;
  last_ip = utf8 "";
  last_login = utf8 "";
}

unfoldable pub check_password : Text → UserAccount → Bool
check_password password_hash account = text_eq account.password_hash password_hash

unfoldable pub set_password : Text → UserAccount → UserAccount
set_password new_password_hash account = record account { password_hash = new_password_hash }

unfoldable pub set_admin : Bool → UserAccount → UserAccount
set_admin is_admin account = record account { is_admin = is_admin }

unfoldable pub update_login_info : Text → Text → UserAccount → UserAccount
update_login_info ip login_time account = record account { last_ip = ip; last_login = login_time }

unfoldable pub hash_password : Text → Text
hash_password password = utf8 "hashed_" ++ password

pub data Status : Type 0 where
  pending in_progress completed failed rejected : Status

pub record FileTransferInfo : Type 0 where
  pub id : Text
  pub filename : Text
  pub filesize : ℕ
  pub sender : ℕ
  pub receiver : ℕ
  pub status : Status
  pub bytes_transferred : ℕ
  pub temp_path : Text

unfoldable pub create_transfer : Text → Text → ℕ → ℕ → ℕ → FileTransferInfo
create_transfer id filename filesize sender receiver = record {
  id = id;
  filename = filename;
  filesize = filesize;
  sender = sender;
  receiver = receiver;
  status = pending;
  bytes_transferred = 0;
  temp_path = utf8 "";
}

unfoldable pub set_status : Status → FileTransferInfo → FileTransferInfo
set_status status info = record info { status = status }

unfoldable pub update_bytes_transferred : ℕ → FileTransferInfo → FileTransferInfo
update_bytes_transferred bytes info = record info { bytes_transferred = bytes }

unfoldable pub set_temp_path : Text → FileTransferInfo → FileTransferInfo
set_temp_path path info = record info { temp_path = path }
