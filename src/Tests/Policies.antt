-- ===== src/Tests/Policies.antt =====
-- The theorems on the retention policies at three backups.
use barman.Prelude.{List, true, false, ◌≡◌, refl, some, [], ◌∷◌, ◌++◌}
use barman.Text.{text_le, text_eq}
use barman.Text.Sort.{sort_desc, sort_by, insert_by}
use barman.Dict.{get}
use barman.Result.{ok}
use barman.Backup.{is_incremental, status_eq}
use barman.Retention.Forest.{Item, IsForest, done_roots}
use Prim.Native.Nat.{max}
use barman.Retention.Redundancy as Redundancy
use barman.Retention.Redundancy.Ranking.{ranked_status, report-ranked}
use barman.Retention.Window.{WindowReport}
use barman.Retention.Window as Window
use barman.Retention.Window.Ranking.{any_old, window_status}
use barman.Retention.Window.Statuses.{report-windowed}
use barman.Prelude.{inl}
use barman.Backup.{BackupInfo, has_children}
use barman.Retention.Forest.{Item}
use barman.Retention.Redundancy.Children.{inherited_status, report-inherited}
use barman.Tests.Data.{id1, id2, id3, backup1, backup2, backup3, catalogue, server, no_walk}

names : Unit {0}
unfolding sort_desc sort_by insert_by text_le text_eq is_incremental status_eq
names = tt

newest_first :
    sort_desc (λ (item : Item). item.0) catalogue
    ≡ ((id3, backup3) ∷ []) ++ (id2, backup2) ∷ (id1, backup1) ∷ []
unfolding names
newest_first = refl

forest : IsForest no_walk catalogue
unfolding names
forest = record {
  distinct = ((refl, (refl, tt)), ((refl, tt), (tt, tt)));
  apart = (
    λ e. (λ f. tt, (λ f. tt, (λ f. tt, tt))),
    (λ e. (λ f. tt, (λ f. tt, (λ f. tt, tt))), (λ e. (λ f. tt, (λ f. tt, (λ f. tt, tt))), tt)),
  );
}

report-ranked_example :
    get (Redundancy.backup_report no_walk server 2 catalogue).report id2
    ≡ some (ranked_status server (max 1 2) (done_roots ((id3, backup3) ∷ [])) (id2, backup2))
unfolding names
report-ranked_example =
    report-ranked no_walk server 2 catalogue ((id3, backup3) ∷ []) ((id1, backup1) ∷ []) id2 backup2
      forest newest_first refl

report-windowed_example :
    (r : WindowReport) × (Window.backup_report no_walk server (λ bid. 250) catalogue ≡ ok r)
    × (get r.report id2
        ≡ some (
            window_status server
              (done_roots ((id3, backup3) ∷ []))
              (any_old (λ bid. 250) ((id3, backup3) ∷ []))
              (id2, backup2)))
unfolding names
report-windowed_example =
    report-windowed no_walk server (λ bid. 250) catalogue ((id3, backup3) ∷ [])
      ((id1, backup1) ∷ []) id2 backup2 forest ((λ e. refl), ((λ e. refl), ((λ e. refl), tt)))
      newest_first refl

-- A full backup with one incremental backup
abbrev parent : BackupInfo
parent = record backup2 { children_backup_ids = some (id3 ∷ []) }

abbrev incremental : BackupInfo
incremental = record backup3 { parent_backup_id = some id2 }

abbrev family : List Item
family = (id2, parent) ∷ (id3, incremental) ∷ (id1, backup1) ∷ []

abbrev walk : BackupInfo → List BackupInfo
walk b = elim (text_eq b.backup_id id2) [ true ↦ incremental ∷ [] | false ↦ [] ]

report-inherited_example :
    get (Redundancy.backup_report walk server 1 family).report id3
    ≡ some (
        inherited_status
          (ranked_status server (max 1 1) (done_roots ((id3, incremental) ∷ [])) (id2, parent))
          (max 1 1)
          (done_roots ((id3, incremental) ∷ [])))
unfolding names has_children
report-inherited_example =
    report-inherited walk server 1 family ((id3, incremental) ∷ []) ((id1, backup1) ∷ []) id2 id3
      parent refl refl refl (inl refl) (record { other = refl; descendants = λ e. tt }, tt)
