-- ===== src/Store/Sample.antt =====
-- A small database for the examples.
use xdev.Prelude.{
  ℕ, ◌≤◌, ◌≡◌, refl, Bool, true, false, List, [], ◌∷◌, none, arith, Text, codes, text_eq,
}
use xdev.Prelude.Int.{pos}
use xdev.Store.Schema.{Db, ProjectRow, App, DomainRow, Deployment, status_running}
use xdev.Store.Deployments.{deploy_ok, deploy_running}
use xdev.Store.Projects.{project_ids}
use xdev.Store.Consistent.{IsConsistent, same_slug, same_app_slug, same_hook, same_host}

abbrev pub project : ℕ → Text → ℕ → ProjectRow
project id slug position = record {
  id = id;
  name = slug;
  slug = slug;
  base_domain = [];
  environment = codes "development";
  network_name = [];
  engine = [];
  dir = [];
  created_at = 7;
  position = pos position;
}

abbrev pub app : ℕ → ℕ → Text → ℕ → App
app id project_id slug position = record {
  id = id;
  project_id = project_id;
  name = slug;
  slug = slug;
  type = codes "go";
  runtime = [];
  status = status_running;
  domain = [];
  cpu_limit = 0;
  mem_limit = 0;
  port = 0;
  compose_path = [];
  serve_mode = [];
  root_dir = [];
  build_cmd = [];
  start_cmd = [];
  source_dir = [];
  git_url = [];
  git_ref = [];
  git_subdir = [];
  deployed_sha = [];
  deployed_at = none;
  hook_id = [];
  hook_secret = [];
  push_token_hash = [];
  push_token_hint = [];
  skip_db_dump = false;
  laravel_server = [];
  position = pos position;
  upstream = [];
  db_mode = [];
  wp_mode = [];
  created_at = 8;
  updated_at = 8;
}

abbrev pub domain : ℕ → ℕ → Text → ℕ → DomainRow
domain id app_id hostname port = record {
  id = id;
  app_id = app_id;
  hostname = hostname;
  is_local = true;
  ssl_mode = codes "local";
  port = port;
}

abbrev pub deployment : ℕ → ℕ → Text → Deployment
deployment id app_id status = record {
  id = id;
  app_id = app_id;
  trigger = codes "manual";
  status = status;
  sha = [];
  message = [];
  log = [];
  created_at = 9;
  finished_at = none;
}

-- Two projects; two apps in the first and one in the second.
abbrev pub sample : Db
sample = record {
  projects = project 1 (codes "blog") 1 ∷ project 2 (codes "shop") 2 ∷ [];
  last_project = 2;
  apps = app 1 1 (codes "api") 1 ∷ app 2 1 (codes "web") 2 ∷ app 3 2 (codes "api") 1 ∷ [];
  last_app = 3;
  domains = domain 1 1 (codes "api.test") 0 ∷ domain 2 3 (codes "old.test") 0 ∷ [];
  last_domain = 2;
  deployments =
      deployment 1 1 deploy_ok ∷ deployment 2 3 deploy_ok ∷ deployment 3 1 deploy_running ∷ [];
  last_deployment = 3;
  settings = [];
}

pub sample-IsConsistent : IsConsistent sample
unfolding same_slug same_app_slug same_hook same_host project_ids xdev.Store.Ranking.member
    xdev.Prelude.any text_eq
sample-IsConsistent = record {
  projects = record {
    keys = (refl, (refl, tt));
    bound = (omega arith, (omega arith, tt));
    slugs = (refl, (refl, tt));
  };
  apps = record {
    keys = (refl, (refl, (refl, tt)));
    bound = (omega arith, (omega arith, (omega arith, tt)));
    slugs = (refl, (refl, (refl, tt)));
    hooks = (refl, (refl, (refl, tt)));
    parents = (refl, (refl, (refl, tt)));
  };
  domains = record {
    keys = (refl, (refl, tt));
    bound = (omega arith, (omega arith, tt));
    hosts = (refl, (refl, tt));
    parents = (refl, (refl, tt));
  };
  settings = tt;
  deployments = record {
    keys = (refl, (refl, (refl, tt)));
    bound = (omega arith, (omega arith, (omega arith, tt)));
    parents = (refl, (refl, (refl, tt)));
  };
}
