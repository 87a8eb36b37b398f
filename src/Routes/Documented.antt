-- ===== src/Routes/Documented.antt =====
-- The OpenAPI document of the endpoints: the `#[utoipa::path(…)]` attributes in routes/ and
-- main.rs, each with its method, its path and the statuses of its `responses`.
use yaima.Base.{ℕ, String, List, [], ◌∷◌}
use yaima.Middleware.{Method, get, post, put, delete}

pub record Operation : Type 0 where
  pub method : Method
  pub path : String
  pub success : ℕ
  pub errors : List ℕ

abbrev pub register : Operation
register = record { method = post; path = "/auth/register"; success = 201; errors = 409 ∷ [] }

abbrev pub login : Operation
login = record { method = post; path = "/auth/login"; success = 200; errors = 401 ∷ [] }

abbrev pub refresh : Operation
refresh = record { method = post; path = "/auth/refresh"; success = 200; errors = 401 ∷ [] }

abbrev pub logout : Operation
logout = record { method = post; path = "/auth/logout"; success = 200; errors = 401 ∷ [] }

abbrev pub authorize : Operation
authorize = record {
  method = get;
  path = "/auth/{provider}";
  success = 302;
  errors = 404 ∷ 503 ∷ [];
}

abbrev pub callback : Operation
callback = record {
  method = get;
  path = "/auth/{provider}/callback";
  success = 302;
  errors = 400 ∷ 401 ∷ 404 ∷ 502 ∷ [];
}

abbrev pub session : Operation
session = record { method = post; path = "/auth/session"; success = 200; errors = 401 ∷ [] }

abbrev pub list_connections : Operation
list_connections = record {
  method = get;
  path = "/auth/connections";
  success = 200;
  errors = 401 ∷ [];
}

abbrev pub unlink_connection : Operation
unlink_connection = record {
  method = delete;
  path = "/auth/connections/{provider}";
  success = 200;
  errors = 401 ∷ 404 ∷ [];
}

abbrev pub get_me : Operation
get_me = record { method = get; path = "/users/me"; success = 200; errors = 401 ∷ [] }

abbrev pub change_password : Operation
change_password = record {
  method = put;
  path = "/users/me/password";
  success = 200;
  errors = 401 ∷ [];
}

abbrev pub deactivate_account : Operation
deactivate_account = record {
  method = delete;
  path = "/users/me";
  success = 200;
  errors = 401 ∷ [];
}

abbrev pub update_user_role : Operation
update_user_role = record {
  method = put;
  path = "/admin/users/{id}/role";
  success = 200;
  errors = 401 ∷ 403 ∷ 404 ∷ [];
}

abbrev pub health : Operation
health = record { method = get; path = "/health"; success = 200; errors = [] }
