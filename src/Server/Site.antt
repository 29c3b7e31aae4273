-- ===== src/Server/Site.antt =====
-- nport-server/src/server/templates.rs, error.rs and handlers/site.rs: the pages that are made of
-- templates. The template library is a parameter.
pub mod Laws
pub mod Replies
mod Tests
use nport.Prelude.{ℕ, Option, none, some, Result, ok, err}
use nport.Prelude.Int.{ℤ}
use nport.Text.{Text, codes}
use nport.Text.Decimal.{print_u16}
use nport.Server.Stats.{CountedMetric, Stats}
use nport.Server.Forward.{ForwardRequestError, status_code}
use nport.Server.Forward.Handler.{to_string}

-- `CountedMetric::get`
abbrev pub get : CountedMetric → ℤ
get m = m.count

pub record StatsContext : Type 0 where
  pub client_count : ℤ
  pub http_hostname_count : ℤ
  pub tcp_port_count : ℤ

-- What a page is rendered with.
pub data Context : Type 0 where
  no_data : Context
  of_stats : StatsContext → Context
  of_error : (hostname error http_error : Text) → Context

-- `Tera::render` of a template that is part of the program, or the text of its error.
abbrev pub Tera : Type 0
Tera = Text → Context → Result Text Text

pub record Renderer : Type 0 where
  pub template_name : Text
  pub status_code : Option ℕ
  pub context : Option Context

abbrev pub renderer : Text → Renderer
renderer template_name = record {
  template_name = template_name;
  status_code = none;
  context = none;
}

abbrev pub with_status : ℕ → Renderer → Renderer
with_status code r = record r { status_code = some code }

-- `with_context`, and `with_data` after its serialisation.
abbrev pub with_context : Context → Renderer → Renderer
with_context context r = record r { context = some context }

abbrev pub code_or_ok : Option ℕ → ℕ
code_or_ok none = 200
code_or_ok (some code) = code

abbrev pub context_or_empty : Option Context → Context
context_or_empty none = no_data
context_or_empty (some context) = context

-- A page with its status.
pub record Page : Type 0 where
  pub code : ℕ
  pub body : Text

-- `Error::into_response`: the error is only logged.
abbrev pub error_response : Page
error_response = record { code = 500; body = codes "Internal Server Error" }

module _ (tera : Tera) where
  -- `render_response`, and what axum makes of its result.
  unfoldable pub render_response : Renderer → Page
  render_response r = elim (tera r.template_name (context_or_empty r.context)) [
    | ok html ↦ record { code = code_or_ok r.status_code; body = html }
    | err e ↦ error_response
  ]

  unfoldable pub home : Page
  home = render_response (renderer (codes "index.html"))

  abbrev pub context_of : Stats → StatsContext
  context_of s = record {
    client_count = get s.client_connections;
    http_hostname_count = get s.http_hostnames;
    tcp_port_count = get s.tcp_ports;
  }

  unfoldable pub stats : Stats → Page
  stats s = render_response (with_context (of_stats (context_of s)) (renderer (codes "stats.html")))

  -- The page of `forward` about an error; `reason` is the phrase that a status code is shown with.
  unfoldable pub error_page : (reason : ℕ → Text) → Text → Text → ForwardRequestError → Page
  error_page reason broken hostname e =
      let code = status_code e in
      render_response (
        with_context (of_error hostname (to_string broken e) (reason code))
          (with_status code (renderer (codes "error.html"))))
