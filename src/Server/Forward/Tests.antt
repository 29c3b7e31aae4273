-- ===== src/Server/Forward/Tests.antt =====
-- Instances: a request for foo.nport.io, which client 0 owns.
use nport.Prelude.{ℕ, ◌≡◌, ◌⊎◌, true, false, none, some, List, [], ◌∷◌, Result, ok, err}
use nport.Text.{Text, codes}
use nport.StringSet
use nport.Messages.Client.{HttpResponse, success}
use nport.Server.State.{World}
use nport.Server.Env.{Env}
use nport.Server.Client.{Error}
use nport.Server.Registry.{register, claim_http_hostname}
use nport.Server.Session.Reachable.{empty_world}
use nport.Server.Forward.{
  Headers, ForwardRequestError, Incoming, Reply, is_status, came, forward_request, reply_with,
}
use nport.Server.Forward.Laws.{expected}
use nport.Server.Site.{Tera}
use nport.Server.Site.Replies.{into_response, IsUnrendered, reply_code}
use nport.Np.Env as NpEnv
use nport.Np.Client as Np
use nport.Np.Dispatch.Http.{Hyper}

abbrev env : Env
env = record { link = true; is_open = λ c. true; generated = codes "a"; bind = λ p. none }

abbrev np_env : NpEnv.Env
np_env = record {
  connect_async = λ url. ok tt;
  link = ok tt;
  received = none;
  decode = λ payload. err (codes "no decoder");
  tcp_connect = λ addr. ok tt;
  channel = 5;
  is_open = λ c. true;
  has_room = λ c. true;
}

abbrev hyper : Hyper
hyper = record {
  method_from_bytes = λ m. ok m;
  header_name = λ n. ok n;
  header_value = λ v. ok v;
  from_utf8_lossy = λ v. v;
  build = λ uri method body. ok (record { uri = uri; method = method; headers = []; body = body });
  fetch = λ request. err (codes "connection refused");
}

abbrev online : Np.Client
online = record {
  version_info = record { pkg_version = codes "1"; git_ref = codes "abc"; git_is_dirty = false };
  http_forwardings = [];
  port_forwardings = [];
  port_writers = [];
  connection = some [];
}

abbrev foo : Text
foo = codes "foo.nport.io"

abbrev claimed : World
claimed = (claim_http_hostname (register empty_world).0 0 foo).0

abbrev incoming : Incoming
incoming = record {
  client_address = (codes "10.0.0.9", 5555);
  method = codes "GET";
  uri = codes "/";
  headers = (some (codes "cookie"), codes "a=1") ∷ (none, codes "b=2") ∷ [];
  body = [];
}

abbrev named : List (Text × Text)
named = (codes "cookie", codes "a=1") ∷ (codes "cookie", codes "b=2") ∷ []

abbrev headers : Headers
headers = record {
  to_str = λ v. some v;
  name_from_bytes = λ n. some n;
  value_from_bytes = λ v. some v;
}

-- A client that answers with the status 20.
abbrev odd : HttpResponse
odd = record {
  uuid = codes "u1";
  payload = some (success (record { headers = []; status_code = 20; body = [] }));
}

abbrev channel_7 : Result Error ℕ
channel_7 = ok 7

abbrev no_page : Tera
no_page template context = err (codes "no template")

reply_code_example :
    ((reply : Reply) × (reply_with headers foo (forward_request channel_7 (came odd)) ≡ some reply)
      × (is_status (expected channel_7 (came odd)) ≡ true)
      × (((into_response no_page (λ code. []) [] reply).code ≡ expected channel_7 (came odd))
          ⊎ ((e : ForwardRequestError) × (forward_request channel_7 (came odd) ≡ err e)
              × IsUnrendered no_page (λ code. []) [] foo e
              × ((into_response no_page (λ code. []) [] reply).code ≡ 500))))
    ⊎ ((reply_with headers foo (forward_request channel_7 (came odd)) ≡ none)
        × (is_status (expected channel_7 (came odd)) ≡ false))
reply_code_example = reply_code no_page (λ code. []) [] headers foo channel_7 (came odd)
