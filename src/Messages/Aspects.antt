-- ===== src/Messages/Aspects.antt =====
-- lib/messages/aspects.go: the aspect list and its deprecated single-valued alias.
-- `marshallermodel.AspectNodesAlias` is third-party code and a parameter.
use Prim.Native.Nat.{Ordering}
use Prim.Native.String.{compare}
use external_task_worker.Base.{Option, none, some, List, [], ◌∷◌}
use external_task_worker.Model.{AspectNode}
use external_task_worker.Messages.{Command, Metadata}

module _ (aspect_nodes_alias : AspectNode → List AspectNode → List AspectNode) where
  -- `Command.GetAspects`
  unfoldable pub get_aspects : Command → List AspectNode
  get_aspects c = elim c.aspect [ none ↦ c.aspects | some a ↦ aspect_nodes_alias a c.aspects ]

  -- `Command.SetAspects`
  unfoldable pub set_aspects : Command → Command
  unfolding get_aspects
  set_aspects c = record c { aspects = get_aspects c }

  -- `Metadata.GetOutputAspectNodes`
  unfoldable pub get_output_aspect_nodes : Metadata → List AspectNode
  get_output_aspect_nodes m = elim m.output_aspect_node [
    | none ↦ m.output_aspect_nodes
    | some a ↦ aspect_nodes_alias a m.output_aspect_nodes
  ]

-- `slices.MinFunc`: the first of the least
unfoldable pub min_by_id : AspectNode → List AspectNode → AspectNode
min_by_id m [] = m
min_by_id m (a ∷ rest) = min_by_id (elim (compare a.id m.id) [ Ordering.lt ↦ a | _ ↦ m ]) rest

-- `deprecatedAspectNode`
unfoldable pub deprecated_aspect_node : List AspectNode → Option AspectNode
unfolding min_by_id
deprecated_aspect_node [] = none
deprecated_aspect_node (a ∷ rest) = some (min_by_id a rest)

-- `Metadata.SetOutputAspectNodes`
unfoldable pub set_output_aspect_nodes : List AspectNode → Metadata → Metadata
unfolding deprecated_aspect_node
set_output_aspect_nodes nodes m = record m {
  output_aspect_nodes = nodes;
  output_aspect_node = deprecated_aspect_node nodes;
}
