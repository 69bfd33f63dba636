-- ===== src/Rendering.antt =====
-- The rendering of artifacts: scripts/pre_render.py.
pub mod Yaml
pub mod YamlLaws
