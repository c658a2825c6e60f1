-- ===== src/Ui.antt =====
-- components/stark_ui: the parts that do not draw.
pub mod Menu
