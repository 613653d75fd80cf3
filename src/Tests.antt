-- ===== src/Tests.antt =====
-- Tests of the definitions, after the repository's own, and the theorems at concrete inputs.
mod Inputs
mod TemplateInputs
mod TemplateTests
mod TemplateExamples
mod JsTests
mod Examples
mod CompileExamples
mod EngineExamples
mod ObjectExamples
mod RuntimeExamples
mod FunctionExamples
