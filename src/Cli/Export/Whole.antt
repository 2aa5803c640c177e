-- ===== src/Cli/Export/Whole.antt =====
-- What a snapshot export holds.
use kbeacon.Prelude.{◌≡◌, ◌≢◌, Bool, true, false, ◌||◌, none, some, ok, err, List, [], All}
use kbeacon.Text.{Text, str, ◌==◌, elem, trim_space}
use kbeacon.Dict.{Dict, get, has}
use kbeacon.Cli.Render.{line}
use kbeacon.Cli.Run.{Exit}
use kbeacon.Cli.Export.{SnapshotResourceRequest, names_of, Requests, SnapshotExport}
use kbeacon.Cli.Export.Fetched.{served, every_served}

module _ (calls : Requests) where
  -- The cluster of an export: the outer name that the configuration under `config` tells, or the inner
  -- name where the outer one is blank, or none where no configuration could be read.
  pub data IsClusterOf (resources : Dict Text) (cluster : Text) : Type 0 where
    untold :
        ((raw : Text) → get (str "config") resources ≡ some raw → calls.read_clusters raw ≡ none)
        → cluster ≡ []
        → IsClusterOf resources cluster
    outer :
        (raw named other : Text)
        → get (str "config") resources ≡ some raw
        → calls.read_clusters raw ≡ some (named, other)
        → trim_space named ≢ []
        → cluster ≡ trim_space named
        → IsClusterOf resources cluster
    inner :
        (raw blank named : Text)
        → get (str "config") resources ≡ some raw
        → calls.read_clusters raw ≡ some (blank, named)
        → trim_space blank ≡ []
        → cluster ≡ trim_space named
        → IsClusterOf resources cluster

  -- The document of an export: made now for the agent that was asked, with the cluster that the
  -- resources tell, and with the whole body of the answer to each request under its name, each
  -- a good answer, and nothing under other names.
  pub record IsDocument (requests : List SnapshotResourceRequest) (document : SnapshotExport)
      : Type 0 where
    pub generated_at : document.generated_at ≡ calls.now
    pub server : document.server ≡ calls.description
    pub cluster : IsClusterOf document.resources document.cluster
    pub bodies :
        All
          (λ r.
            (served calls r ≡ true)
            × (get r.name document.resources ≡ some (calls.get_endpoint r.endpoint).body))
          requests
    pub no_other : (k : Text) → has k document.resources ≡ elem k (names_of requests)

  -- The output that means the standard output.
  abbrev pub is_stdout : Text → Bool
  is_stdout output = trim_space output == [] || trim_space output == str "-"

  -- How an export ends: with the document on the standard output or in the file, or without output
  -- and with status 1, because the file was not written, the document was not encoded, or one of the
  -- answers was not good.
  pub data Exported (output : Text) (pretty : Bool) (requests : List SnapshotResourceRequest)
      (exit : Exit) : Type 0 where
    to_stdout :
        (document : SnapshotExport) (encoded : Text)
        → IsDocument requests document
        → calls.marshal pretty document ≡ ok encoded
        → is_stdout output ≡ true
        → exit ≡ record { status = 0; stdout = line encoded; stderr = [] }
        → Exported output pretty requests exit
    to_file :
        (document : SnapshotExport) (encoded : Text)
        → IsDocument requests document
        → calls.marshal pretty document ≡ ok encoded
        → is_stdout output ≡ false
        → calls.write_file (trim_space output) (line encoded) ≡ none
        → exit.status ≡ 0
        → Exported output pretty requests exit
    not_written :
        (document : SnapshotExport) (encoded error : Text)
        → IsDocument requests document
        → calls.marshal pretty document ≡ ok encoded
        → is_stdout output ≡ false
        → calls.write_file (trim_space output) (line encoded) ≡ some error
        → exit.status ≡ 1
        → exit.stdout ≡ []
        → Exported output pretty requests exit
    not_encoded :
        (document : SnapshotExport) (error : Text)
        → IsDocument requests document
        → calls.marshal pretty document ≡ err error
        → exit.status ≡ 1
        → exit.stdout ≡ []
        → Exported output pretty requests exit
    stopped :
        every_served calls requests ≡ false
        → exit.status ≡ 1
        → exit.stdout ≡ []
        → Exported output pretty requests exit
