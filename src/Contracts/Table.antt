-- ===== src/Contracts/Table.antt =====
-- The contract table that is shipped.
use hola.Prelude.{none, some, List, [], ◌∷◌}
use hola.Contracts.{
  ContractDefinition, brokered, provisioned, app, platform, declared, implicit, apps_data,
  container_logs, restore_staging,
}

abbrev pub contracts : List ContractDefinition
contracts =
    record {
      id = "auth";
      version = 1;
      shape = provisioned;
      provider_kind = platform;
      participation = declared;
      provider_grant = none;
      acceptor_block = some "auth";
      summary = "Per-app SSO provisioned at deploy time (native-oidc, forward-auth, native-ldap).";
    }
    ∷ record {
      id = "backup";
      version = 1;
      shape = brokered;
      provider_kind = app;
      participation = declared;
      provider_grant = some (record {
        kind = apps_data;
        label = "Read the data of every installed app";
        risk =
            "This app gets a read-only view of all app data — including database files and any secrets apps keep on disk. It needs this to back them up. Grant it only to an app you trust with everything on this host.";
      });
      acceptor_block = some "backup";
      summary =
          "Consistent capture of an app's data, with optional pre/post hooks around the file capture.";
    }
    ∷ record {
      id = "push";
      version = 1;
      shape = brokered;
      provider_kind = platform;
      participation = declared;
      provider_grant = none;
      acceptor_block = some "push";
      summary = "Bulk data loaded into declared directories under the app's data root.";
    }
    ∷ record {
      id = "container-logs";
      version = 1;
      shape = provisioned;
      provider_kind = app;
      participation = implicit;
      provider_grant = some (record {
        kind = container_logs;
        label = "Read the logs of every container on this host";
        risk =
            "This app can read whatever every installed app writes to its logs — which routinely includes tokens, request paths and personal data — and can see which containers exist and how they are labelled. It cannot start, stop or reach into them. Grant it only to a log collector you trust with everything on this host.";
      });
      acceptor_block = none;
      summary =
          "Continuous read access to every container's logs for a trusted collector; every install is a subject.";
    }
    ∷ record {
      id = "restore";
      version = 1;
      shape = brokered;
      provider_kind = app;
      participation = declared;
      provider_grant = some (record {
        kind = restore_staging;
        label = "Write into a shared restore staging area";
        risk =
            "This app can write files anywhere under one platform-owned scratch directory, used to stage a capture before Hola moves it into a new install’s data. It cannot write anywhere else on this host — not into any app’s data, not into Hola’s own files, not into the apps directory itself. Grant it only to an app you trust to deliver exactly the files a restore expects.";
      });
      acceptor_block = some "restore";
      summary =
          "A held capture delivered into the staging root the platform nominates for a restoring install.";
    }
    ∷ []
