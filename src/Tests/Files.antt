-- ===== src/Tests/Files.antt =====
-- The files that the daemon writes and the plugin reads.
use kube_dtn.Prelude.{
  ◌≡◌, ◌≢◌, refl, ap, ◌∙◌, String, Option, none, some, [], ◌∷◌, Action, Result, ok, err, message,
  arith, String_eq, eq_iff,
}
use kube_dtn.Prelude.Maps.{Map, lookup, insert, lookup-insert}
use kube_dtn.Prelude.Text.{after_prefix}
use kube_dtn.CniConfig.{CniFiles, init}
use kube_dtn.Plugin.LinkType.{Reads, set_inter_node_link_type, link_type-init}
use kube_dtn.Tests.Nodes.{files}

abbrev Stored : Type 0
Stored = Map String String

-- The configuration of another plugin, and a file system that only grows.
abbrev disk : CniFiles
disk = record files {
  World = Stored;
  conf_files = λ w. (ok ("10-calico.conflist" ∷ []), w);
  conf_list_from_file = λ f w. (ok (("plugins", files.of_list []) ∷ []), w);
  conf_from_file = λ f w. (err (message "error parsing configuration"), w);
  write_file = λ path text w. (ok tt, insert path text w);
  remove_file = λ path w. (ok tt, w);
  getenv = λ name w. "GRPC";
}

abbrev content : Option String → Result String
content none = err (message "no such file or directory")
content (some text) = ok text

abbrev read_file : String → Action Stored String
read_file path w = (content (lookup path w), w)

lookup-insert_same :
    (path text : String) (w : Stored) → lookup path (insert path text w) ≡ some text
lookup-insert_same path text w = lookup-insert path path text w ∙ ground (arith, eq_iff path path)

lookup-insert_other :
    (path other text : String) (w : Stored)
    → path ≢ other
    → lookup path (insert other text w) ≡ lookup path w
lookup-insert_other path other text w ne =
    lookup-insert other path text w ∙ ground (arith, eq_iff other path)

disk-Reads : Reads disk read_file
disk-Reads = record {
  read_back = λ path text w w' written.
      let same : insert path text w ≡ w' = cc in
      rw (← same)
        (ap (λ found. (content found, insert path text w)) (lookup-insert_same path text w));
  kept = λ path other text w w' r ne written read.
      let same : insert other text w ≡ w' = cc in
      let before : content (lookup path w) ≡ r = cc in
      rw (← same) (
        ap (λ found. (content found, insert other text w))
          (lookup-insert_other path other text w ne)
        ∙ ap (λ x. (x, insert other text w)) before);
  fixed = λ name w w'. refl;
}

started : init disk [] ≡ (ok tt, (init disk []).1)
unfolding init after_prefix
started = refl

link_type-init_example :
    set_inter_node_link_type read_file "VXLAN" (init disk []).1 ≡ (ok "GRPC", (init disk []).1)
link_type-init_example =
    link_type-init disk read_file disk-Reads "VXLAN" [] (init disk []).1 started
