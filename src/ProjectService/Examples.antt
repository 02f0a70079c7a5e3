-- ===== src/ProjectService/Examples.antt =====
-- Runs of internal/projects/projects.go.
use xdev.Prelude.{
  ℕ, ◌≤◌, ◌≡◌, refl, Bool, true, false, List, [], arith, is_empty, length, Text, codes, text_eq,
  lower_rune, trim_space,
}
use xdev.Prelude.Result.{err}
use xdev.Naming.{slugify}
use xdev.Store.Schema.{Project}
use xdev.Store.Projects.{project_slug_exists}
use xdev.Store.Sample.{sample, sample-IsConsistent}
use xdev.ProjectService.{World, Answers, Settings, create, rename, max_project_name, network_failed}
use xdev.ProjectService.Create.{create-fails}

abbrev keep_rune : ℕ → ℕ
keep_rune r = r

abbrev settings : Settings
settings = record { projects_dir = codes "/srv/xdev"; engine = codes "podman" }

abbrev all_well : Answers
all_well = record {
  makes_dir = true;
  makes_network = true;
  removes_dir = true;
  removes_network = true;
}

abbrev no_network : Answers
no_network = record all_well { makes_network = false }

abbrev world : World
world = record { db = sample; dirs = []; networks = [] }

abbrev title : Text
title = codes " Blog "

create_refused : (create keep_rune settings no_network 10 title [] [] world).0 ≡ err network_failed
unfolding create trim_space xdev.Naming.unique project_slug_exists text_eq slugify lower_rune
    xdev.ProjectService.provision
create_refused = refl

create-fails_example : (create keep_rune settings no_network 10 title [] [] world).1.db ≡ sample
create-fails_example =
    create-fails keep_rune settings no_network 10 title [] [] world network_failed
      sample-IsConsistent create_refused

abbrev blog : Project
blog = record {
  id = 1;
  name = codes "blog";
  slug = codes "blog";
  base_domain = [];
  environment = codes "development";
  network_name = [];
  engine = [];
  dir = [];
  created_at = 7;
  app_count = 0;
}

is_short : length (trim_space (codes "News ")) ≤ max_project_name
unfolding trim_space
is_short = omega arith

news_is_named : is_empty (trim_space (codes "News ")) ≡ false
unfolding trim_space
news_is_named = refl
