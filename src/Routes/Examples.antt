-- ===== src/Routes/Examples.antt =====
-- Requests of an administrator and of a viewer.
use encode_system.Prelude.{◌≡◌, refl, ◌=s=◌, String, [], ◌∷◌, some, none, Option}
use encode_system.Prelude.Results.{ok}
use Prim.Native.String.{◌++◌ as ◌++ˢ◌}
use encode_system.Accounts.{Accounts, Outside}
use encode_system.Accounts.Access.{Request, Handler}
use encode_system.Table.{first_by, select_where}
use encode_system.Routes.{route_for, serve}
use encode_system.Routes.Table.{Route}
use encode_system.Routes.Guarded.{ByAdmin, serve-ByAdmin}

abbrev handler_of : Option Route → String
handler_of none = ""
handler_of (some rt) = rt.handler

bulk_test : handler_of (route_for "POST" ("api" ∷ "jobs" ∷ "bulk" ∷ [])) ≡ "handleBulkJobs"
unfolding route_for first_by select_where
bulk_test = refl

head_test : handler_of (route_for "HEAD" ("api" ∷ "jobs" ∷ "7" ∷ [])) ≡ "handleGetJob"
unfolding route_for first_by select_where
head_test = refl

abbrev outside : Outside
outside = record {
  now = 1000;
  hash_token = λ s. "t:" ++ˢ s;
  new_token = some "new";
  matches = λ h p. h =s= p;
  hash_password = λ p. some p;
  trim_space = λ s. s;
}

abbrev accounts : Accounts
accounts = record {
  users = record { id = 1; username = "root"; role = "admin"; password_hash = "secret" } ∷ [];
  next_user_id = 2;
  sessions = record { token_hash = "t:abc"; user_id = 1; expires_at = 2000 } ∷ [];
  tokens =
      record { id = 1; name = "ci"; scope = "read"; token_hash = "t:rrr"; last_used_at = none }
      ∷ [];
  next_token_id = 2;
  audit = [];
  throttle = record { failures = 0; locked_until = 0 };
}

-- every management handler answers with its name
abbrev call : String → Handler String
call h who a = (a, ok h)

abbrev delete_request : Request
delete_request = record { method = "DELETE"; bearer = "abc" }

serve-ByAdmin_example :
    ByAdmin call outside delete_request accounts
      (serve call outside delete_request ("api" ∷ "jobs" ∷ "7" ∷ []) accounts)
serve-ByAdmin_example =
    serve-ByAdmin call outside delete_request ("api" ∷ "jobs" ∷ "7" ∷ []) accounts refl
